-- ===== src/SharedState/Window.antt =====
-- How the live part of a list of hits changes as the clock goes on, and what a cleanup keeps of it.
use b8mon.Base.{
  ℕ, ◌+◌, ◌*◌, ◌≤◌, ◌≡◌, refl, true, List, [], ◌∷◌, ◌++◌, arith, string_eq, length, All, Bool-cases,
  inl, inr,
}
use b8mon.SharedState.{is_live, live, newest, is_dead}

-- A later look at what was live earlier sees the same as a look at the whole list.
pub live-live :
    (w now later : ℕ) (ts : List ℕ) → now ≤ later → live later w (live now w ts) ≡ live later w ts
live-live w now later [] h = refl
live-live w now later (t ∷ ts) h = ground (arith, live-live w now later ts h)

pub length-live_mono :
    (w now later : ℕ) (ts : List ℕ)
    → now ≤ later
    → length (live later w ts) ≤ length (live now w ts)
length-live_mono w now later [] h = omega arith
length-live_mono w now later (t ∷ ts) h = ground (arith, length-live_mono w now later ts h)

-- Hits in the order in which the clock gave them, none before `lo`.
abbrev pub Ascends : ℕ → List ℕ → Type 0
Ascends lo [] = Unit {0}
Ascends lo (t ∷ ts) = (lo ≤ t) × Ascends t ts

Ascends-weaken : (lo lo' : ℕ) (ts : List ℕ) → lo' ≤ lo → Ascends lo ts → Ascends lo' ts
Ascends-weaken lo lo' [] h a = tt
Ascends-weaken lo lo' (t ∷ ts) h a = (omega arith, a.1)

pub Ascends-live : (w now lo : ℕ) (ts : List ℕ) → Ascends lo ts → Ascends lo (live now w ts)
Ascends-live w now lo [] a = tt
Ascends-live w now lo (t ∷ ts) a = elim (Bool-cases (is_live now w t)) [
  | inl h ↦ rw h (a.0, Ascends-live w now t ts a.1)
  | inr h ↦ rw h (Ascends-weaken t lo _ a.0 (Ascends-live w now t ts a.1))
]

pub Ascends-snoc :
    (lo now : ℕ) (ts : List ℕ)
    → Ascends lo ts
    → lo ≤ now
    → All (λ t. t ≤ now) ts
    → Ascends lo (ts ++ now ∷ [])
Ascends-snoc lo now [] a h b = (h, tt)
Ascends-snoc lo now (t ∷ ts) a h b = (a.0, Ascends-snoc t now ts a.1 b.0 b.1)

pub All-live : (P : ℕ → Type 0) (w now : ℕ) (ts : List ℕ) → All P ts → All P (live now w ts)
All-live P w now [] a = tt
All-live P w now (t ∷ ts) a = elim (Bool-cases (is_live now w t)) [
  | inl h ↦ rw h (a.0, All-live P w now ts a.1)
  | inr h ↦ rw h (All-live P w now ts a.1)
]

pub All-le_later :
    (now later : ℕ) (ts : List ℕ) → now ≤ later → All (λ t. t ≤ now) ts → All (λ t. t ≤ later) ts
All-le_later now later [] h a = tt
All-le_later now later (t ∷ ts) h a = (omega arith, All-le_later now later ts h a.1)

pub All-snoc : (now : ℕ) (ts : List ℕ) → All (λ t. t ≤ now) ts → All (λ t. t ≤ now) (ts ++ now ∷ [])
All-snoc now [] a = (omega arith, tt)
All-snoc now (t ∷ ts) a = (a.0, All-snoc now ts a.1)

le-newest : (t : ℕ) (ts : List ℕ) → Ascends t ts → t ≤ newest t ts
le-newest t [] a = omega arith
le-newest t (u ∷ us) a = omega (arith, le-newest u us a.1)

-- Once the newest hit has left the window, every hit has.
pub live-nil_of_newest :
    (w now t : ℕ) (ts : List ℕ) → Ascends t ts → newest t ts + w ≤ now → live now w (t ∷ ts) ≡ []
live-nil_of_newest w now t [] a h = ground arith
live-nil_of_newest w now t (u ∷ us) a h =
    ground (arith, le-newest u us a.1, live-nil_of_newest w now u us a.1 h)

-- A list that a cleanup for windows of at least half the length drops has no live hit.
pub live-is_dead :
    (w w' now lo : ℕ) (ts : List ℕ)
    → Ascends lo ts
    → w ≤ w' * 2
    → is_dead now w' ts ≡ true
    → live now w ts ≡ []
unfolding is_dead
live-is_dead w w' now lo [] a h d = refl
live-is_dead w w' now lo (t ∷ ts) a h d = live-nil_of_newest w now t ts a.1 (ground arith)
