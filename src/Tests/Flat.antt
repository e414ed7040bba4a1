-- ===== src/Tests/Flat.antt =====
-- The v3 book: a bitmap with the levels 5, 70 and 1100, and a book with one order.
use feed_handler.Prelude.{ℕ, zero, suc, ◌*◌, ◌^◌, ◌≡◌, refl, true, List, [], ◌∷◌, some, arith}
use feed_handler.V3.Bitmap.{k_window, find_prev_set, find_next_set}
use feed_handler.V3.Bitmap.Search.{WordsFit, IsPrev, IsNext, find_prev_set-IsPrev}
use feed_handler.V3.Bitmap.Forward.{find_next_set-IsNext}
use feed_handler.V3.BookState.{new_book, in_window, set_base}

abbrev bitmap : List ℕ
bitmap = 2 ^ 5 ∷ 2 ^ 6 ∷ []

bitmap-WordsFit : WordsFit bitmap
bitmap-WordsFit zero = omega arith
bitmap-WordsFit (suc zero) = omega arith
bitmap-WordsFit (suc (suc w)) = omega arith

find_prev_set-IsPrev_example : IsPrev bitmap 69 70 (find_prev_set bitmap (some 69))
find_prev_set-IsPrev_example = find_prev_set-IsPrev bitmap bitmap-WordsFit 69

find_next_set-IsNext_example : IsNext bitmap 6 6 (2 * k_window) (find_next_set bitmap (some 6))
find_next_set-IsNext_example = find_next_set-IsNext bitmap bitmap-WordsFit 6

first_in_window : in_window (set_base new_book 1000000) 1000000 ≡ true
unfolding in_window set_base new_book
first_in_window = refl
