-- ===== src/Plotter/Bounds.antt =====
-- What every state of parse_plt keeps, and the rules for its refusals.
use plt_converter.Prelude.{
  ℕ, ◌+◌, ◌≤◌, ◌≡◌, min, refl, Bool, true, false, Option, some, List, [], ◌∷◌, ◌++◌, ◌==◌, arith,
  if◌then◌else◌, All, length, Bool-cases, inl, inr, exists_where, subst,
}
use plt_converter.Plotter.Drawing.{
  Parsed, ok, refuse, ◌>>=◌, ◌>>◌, guard, Refusal, Limits, Point, Style, Figure, Shape, Drawing,
  Warning, warn, warn_if, warning_code,
}
pub mod Strokes
pub mod Arcs
pub mod Labels
pub mod Commands
pub mod Documents

-- What holds of the value, where there is one.
abbrev pub Yields {ℓ κ} : {A : Type ℓ} → (A → Type κ) → Parsed A → Type κ
Yields P (ok a) = P a
Yields P (refuse e) = Unit

pub >>=-Yields {ℓ κ μ ν} :
    {A : Type ℓ} {B : Type κ} (P : A → Type μ) (Q : B → Type ν) (m : Parsed A) (f : A → Parsed B)
    → Yields P m
    → ((a : A) → P a → Yields Q (f a))
    → Yields Q (m >>= f)
>>=-Yields P Q (ok a) f h k = k a h
>>=-Yields P Q (refuse e) f h k = tt

-- A step whose value does not matter.
pub >>-Yields {ℓ κ} :
    {B : Type ℓ} (Q : B → Type κ) (m : Parsed (Unit {0})) (k : Parsed B)
    → Yields Q k
    → Yields Q (m >> k)
>>-Yields Q (ok u) k h = h
>>-Yields Q (refuse e) k h = tt

pub Yields-eq-ok {ℓ κ} :
    {A : Type ℓ} (P : A → Type κ) (m : Parsed A) (a : A) → Yields P m → m ≡ ok a → P a
Yields-eq-ok {A} P (ok b) a h e = subst P (ok_inj e) h
  where
    ok_inj : {x y : A} → ok x ≡ ok y → x ≡ y
    ok_inj g = ground arith
Yields-eq-ok P (refuse x) a h e = absurd (ground arith)

-- A path has two points at least and a style for each segment.
abbrev pub IsDrawn : {F : Type 0} → Figure F → Type 0
IsDrawn (Figure.path ps ss w) = (2 ≤ length ps) × (length ps ≡ length ss + 1)
IsDrawn (Figure.circle c radius w) = Unit
IsDrawn (Figure.text p t) = Unit

module _ {F : Type 0} where
  -- The identifiers count from `k` on.
  abbrev pub AreNumbered : ℕ → List (Shape F) → Type 0
  AreNumbered k [] = Unit
  AreNumbered k (s ∷ ss) = (s.id ≡ k) × AreNumbered (k + 1) ss

  -- The counters are within the limits, the shapes are numbered and drawn, and the stroke has a style for
  -- each of its segments.
  pub record IsWellAt (l : Limits) (commands points characters next_id : ℕ)
      (shapes : List (Shape F)) (stroke : List (Point F)) (styles : List (Style F)) : Type 0 where
    pub commanded : commands ≤ l.commands
    pub pointed : points ≤ l.points
    pub written : characters ≤ l.characters
    pub next : next_id ≡ length shapes + 1
    pub few : length shapes ≤ l.shapes
    pub numbered : AreNumbered 1 shapes
    pub drawn : All (λ (s : Shape F). IsDrawn s.figure) shapes
    pub segments : length stroke ≡ length styles + min 1 (length styles)

  abbrev pub IsWell : Limits → Drawing F → Type 0
  IsWell l d = IsWellAt l d.commands d.points d.characters d.next_id d.shapes d.stroke d.styles

  pub AreNumbered-snoc :
      (k : ℕ) (ss : List (Shape F)) (s : Shape F)
      → AreNumbered k ss
      → s.id ≡ k + length ss
      → AreNumbered k (ss ++ s ∷ [])
  AreNumbered-snoc k [] s h e = (omega (arith, e), tt)
  AreNumbered-snoc k (x ∷ ss) s h e = (h.0, AreNumbered-snoc (k + 1) ss s h.1 (omega (arith, e)))

  pub warn-IsWell : (l : Limits) (w : Warning) (d : Drawing F) → IsWell l d → IsWell l (warn w d)
  warn-IsWell l w d h =
      elim (Bool-cases (exists_where (λ v. warning_code v == warning_code w) d.warnings)) [
        | inl given ↦ simp given h
        | inr new ↦ simp new h
      ]

  pub warn_if-IsWell :
      (l : Limits) (b : Bool) (w : Warning) (d : Drawing F) → IsWell l d → IsWell l (warn_if b w d)
  warn_if-IsWell l true w d h = warn-IsWell l w d h
  warn_if-IsWell l false w d h = h

  pub if-IsWell :
      (l : Limits) (b : Bool) (d e : Drawing F)
      → IsWell l d
      → IsWell l e
      → IsWell l (if b then d else e)
  if-IsWell l true d e h k = h
  if-IsWell l false d e h k = k
