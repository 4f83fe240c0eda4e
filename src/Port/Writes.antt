-- ===== src/Port/Writes.antt =====
-- `safewrite` sends everything, in order, through short and interrupted writes.
use jtag_js.Base.{ℕ, zero, suc, ◌≡◌, ◌≢◌, refl, true, List, [], ◌∷◌, ◌++◌, All, Bytes, take, drop}
use jtag_js.Port.{WriteResult, wrote, interrupted, failed, write_all}

take-append-drop : (n : ℕ) (xs : Bytes) → take n xs ++ drop n xs ≡ xs
take-append-drop zero xs = refl
take-append-drop (suc n) [] = refl
take-append-drop (suc n) (x ∷ xs) = rw (take-append-drop n xs)

abbrev pub NoFailure : List WriteResult → Type 0
NoFailure = All (λ r. r ≢ failed)

-- Unless a write fails, whatever its short counts and interruptions, `safewrite` reports success and
-- the box has got exactly the buffer.
pub write_all_complete :
    (buffer : Bytes) (rs : List WriteResult)
    → NoFailure rs
    → ((write_all buffer rs).0 ≡ buffer) × ((write_all buffer rs).1 ≡ true)
unfolding write_all
write_all_complete [] rs h = (refl, refl)
write_all_complete (b ∷ bs) [] h = (refl, refl)
write_all_complete (b ∷ bs) (wrote n ∷ rs) (_, h) =
    let (sent, fine) = write_all_complete (drop n (b ∷ bs)) rs h in
    (rw sent (take-append-drop n (b ∷ bs)), fine)
write_all_complete (b ∷ bs) (interrupted ∷ rs) (_, h) = write_all_complete (b ∷ bs) rs h
write_all_complete (b ∷ bs) (failed ∷ rs) (ne, h) = absurd (ne refl)

pub write_all-nil : (buffer : Bytes) → write_all buffer [] ≡ (buffer, true, [])
unfolding write_all
write_all-nil [] = refl
write_all-nil (b ∷ bs) = refl
