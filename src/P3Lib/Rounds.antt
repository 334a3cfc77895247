-- ===== src/P3Lib/Rounds.antt =====
-- The round that a time falls in.
use cheddar.Prelude.{
  ℕ, ◌+◌, ◌-◌, ◌*◌, ◌/◌, ◌%◌, ◌≤◌, ◌<◌, ◌≡◌, ◌≢◌, ◌↔◌, ◌==◌, ok, panic, String, Result-cases, inl,
  inr, arith,
}
use cheddar.Prelude.Words.{checked_sub}
use cheddar.P3Lib.{round_number}

-- The number of rounds in that many seconds, a started one counted.
abbrev pub rounds_up : ℕ → ℕ
rounds_up seconds = (seconds + 59) / 60

round_number_total :
    (start end now : ℕ) → start < end → (r : ℕ) × (round_number start end now ≡ ok r)
round_number_total start end now h = elim (Result-cases (round_number start end now)) [
  | inl found ↦ found
  | inr (m, refused) ↦ absurd (never_panics m refused)
]
  where
    never_panics : (m : String) → round_number start end now ≡ panic m → ⊥
    never_panics m refused = unfold round_number checked_sub in ground arith

pub round_number-le :
    (start end now later : ℕ) {r s : ℕ}
    → now ≤ later
    → round_number start end now ≡ ok r
    → round_number start end later ≡ ok s
    → r ≤ s
unfolding round_number checked_sub
round_number-le start end now later {r} {s} h e f = ground arith

-- For a farm that ends after it starts, every time has a round, and rounds never go back as time
-- passes.
pub round_number_mono :
    (start end now later : ℕ)
    → start < end
    → now ≤ later
    → (r : ℕ) × (s : ℕ) × (round_number start end now ≡ ok r)
      × (round_number start end later ≡ ok s)
      × (r ≤ s)
round_number_mono start end now later h le =
    let (r, e) = round_number_total start end now h in
    let (s, f) = round_number_total start end later h in
    (r, s, e, f, round_number-le start end now later le e f)

-- A farm that starts on a full minute has as many rounds as its time has minutes, a started one
-- counted.
pub round_number-aligned :
    (start end : ℕ)
    → start % 60 ≡ 0
    → start < end
    → round_number start end end ≡ ok (rounds_up (end - start))
unfolding round_number checked_sub
round_number-aligned start end aligned h = ground arith

-- A farm of whole minutes that does not start on a full minute has one round too many.
pub round_number-unaligned :
    (start k : ℕ)
    → start % 60 ≢ 0
    → 0 < k
    → round_number start (start + 60 * k) (start + 60 * k) ≡ ok (k + 1)
unfolding round_number checked_sub
round_number-unaligned start k off h = ground arith

-- The number of rounds of a farm that ends after it starts is the number of its minutes, a started one
-- counted, exactly when the farm ends on a full minute just if its time is a whole number of minutes.
pub round_number-exact :
    (start end : ℕ)
    → start < end
    → (round_number start end end ≡ ok (rounds_up (end - start)))
      ↔ ((end % 60 == 0) ≡ ((end - start) % 60 == 0))
unfolding round_number checked_sub
round_number-exact start end h = (λ e. ground (arith, e), λ e. ground (arith, e))
