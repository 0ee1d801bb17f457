-- ===== src/Ledger/Parsing.antt =====
-- begin_parse of app/projection_store.py: its rounds and its deadline.
use plt_converter.Prelude.{
  ℕ, ◌≡◌, refl, Bool, true, false, some, List, [], ◌∷◌, ◌++◌, arith, inl, inr, Option-cases,
  find_row,
}
use plt_converter.Ledger.Rows.{Kind, Lease, Ledger, lease_id, Result, ok, err}
use plt_converter.Ledger.Policy.{Policy}
use plt_converter.Ledger.Leases.{Turn, take_parser, parse_turn, begin_parse}

abbrev is_answer : Turn → Bool
is_answer Turn.delayed = false
is_answer _ = true

-- After the deadline no round asks for another.
late_turn : (p : Policy) (token : ℕ) (l : Ledger) → is_answer (parse_turn p true token l) ≡ true
unfolding parse_turn take_parser
late_turn p token l = elim (Option-cases (find_row lease_id token l.leases)) [
  | inl gone ↦ ground arith
  | inr (row, found) ↦ kind_cases row found row.kind refl
]
  where
    kind_cases :
        (row : Lease)
        → find_row lease_id token l.leases ≡ some row
        → (k : Kind) → row.kind ≡ k
        → is_answer (parse_turn p true token l) ≡ true
    kind_cases row found Kind.upload k = ground arith
    kind_cases row found _ k = ground arith

-- Whatever the other processes do between its rounds, begin_parse has answered by its first round
-- after the deadline.
pub begin_parse-answers :
    (p : Policy) (token : ℕ) (rounds : List (Bool × Ledger)) (l : Ledger)
    → (r : Result Ledger) × (begin_parse p token (rounds ++ (true, l) ∷ []) ≡ some r)
unfolding begin_parse
begin_parse-answers p token [] l = last_round (parse_turn p true token l) refl (late_turn p token l)
  where
    last_round :
        (t : Turn)
        → parse_turn p true token l ≡ t
        → is_answer t ≡ true
        → (r : Result Ledger) × (begin_parse p token ((true, l) ∷ []) ≡ some r)
    last_round (Turn.admitted l') q a = (ok l', ground (arith, q))
    last_round (Turn.refused e) q a = (err e, ground (arith, q))
    last_round Turn.delayed q a = absurd (ground arith)
begin_parse-answers p token ((late, l0) ∷ rounds) l =
    round (parse_turn p late token l0) refl (begin_parse-answers p token rounds l)
  where
    round :
        (t : Turn)
        → parse_turn p late token l0 ≡ t
        → ((r : Result Ledger) × (begin_parse p token (rounds ++ (true, l) ∷ []) ≡ some r))
        → (r : Result Ledger) × (begin_parse p token ((late, l0) ∷ rounds ++ (true, l) ∷ [])
            ≡ some r)
    round (Turn.admitted l') q rest = (ok l', ground (arith, q))
    round (Turn.refused e) q rest = (err e, ground (arith, q))
    round Turn.delayed q (r, answered) = (r, ground (arith, q, answered))
