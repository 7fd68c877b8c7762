-- ===== src/RateLimit/Reference.antt =====
-- What the limiter promises: a log of every admitted call on the key, of which nothing is forgotten.
use mathlib.Core.List.{append_assoc, append-nil}
use b8mon.Base.{
  ◌≡◌, refl, sym, ap, ◌∙◌, false, ℕ, ◌+◌, ◌≤◌, String, Bool, List, [], ◌∷◌, ◌++◌, arith, leb,
  string_eq, ◌==◌, if◌then◌else◌, length, length-append, keep-append, Bool-cases, inl, inr,
}
use b8mon.SharedState.{live, is_live}
use b8mon.SharedState.Window.{length-live_mono}
use b8mon.RateLimit.{Request, Ordered}

-- The log after a call: a call is admitted while fewer than `m` admitted ones lie in the window.
abbrev pub log_call : ℕ → ℕ → Request → List ℕ → List ℕ
log_call m w r log =
    if leb m (length (live r.counted_at w log)) then log else log ++ r.recorded_at ∷ []

abbrev pub reference : String → ℕ → ℕ → List Request → List ℕ → List Bool
reference k m w [] log = []
reference k m w (r ∷ rs) log =
    let here = leb m (length (live r.counted_at w log)) ∷ reference k m w rs (log_call m w r log) in
    let there = reference k m w rs log in if r.key == k then here else there

abbrev pub final_log : String → ℕ → ℕ → List Request → List ℕ → List ℕ
final_log k m w [] log = log
final_log k m w (r ∷ rs) log = final_log k m w rs (if r.key == k then log_call m w r log else log)

-- the clock's last reading
abbrev pub final_time : ℕ → List Request → ℕ
final_time lo [] = lo
final_time lo (r ∷ rs) = final_time r.recorded_at rs

length-live-snoc :
    (now w : ℕ) (log : List ℕ) (t : ℕ)
    → length (live now w (log ++ t ∷ [])) ≤ length (live now w log) + 1
length-live-snoc now w log t = ground (
  arith,
  keep-append (is_live now w) log (t ∷ []),
  length-append (live now w log) (live now w (t ∷ [])),
)

log_call_bound :
    (m w lo : ℕ) (r : Request) (log : List ℕ)
    → lo ≤ r.counted_at
    → r.counted_at ≤ r.recorded_at
    → length (live lo w log) ≤ m
    → length (live r.recorded_at w (log_call m w r log)) ≤ m
log_call_bound m w lo r log h g b = ground (
  arith,
  length-live_mono w lo r.recorded_at log,
  length-live_mono w r.counted_at r.recorded_at log,
  length-live-snoc r.recorded_at w log r.recorded_at,
)

final_log_bound :
    (k : String) (m w lo : ℕ) (rs : List Request) (log : List ℕ)
    → Ordered lo rs
    → length (live lo w log) ≤ m
    → length (live (final_time lo rs) w (final_log k m w rs log)) ≤ m
final_log_bound k m w lo [] log o b = b
final_log_bound k m w lo (r ∷ rs) log o b = elim (Bool-cases (r.key == k)) [
  | inl e ↦ rw e (
      final_log_bound k m w r.recorded_at rs (log_call m w r log) o.2
        (log_call_bound m w lo r log o.0 o.1 b))
  | inr e ↦ rw e (
      final_log_bound k m w r.recorded_at rs log o.2
        (omega (arith, length-live_mono w lo r.recorded_at log (omega arith))))
]

-- Whenever the last call of a sequence is over, at most `m` admitted calls lie in the window
-- that ends there.
pub reference_bound :
    (k : String) (m w : ℕ) (rs : List Request)
    → Ordered 0 rs
    → length (live (final_time 0 rs) w (final_log k m w rs [])) ≤ m
reference_bound k m w rs o = final_log_bound k m w 0 rs [] o (omega arith)

-- When the calls on `k` were recorded that were not limited, given what each was told.
abbrev pub admitted : String → List Request → List Bool → List ℕ
admitted k [] vs = []
admitted k (r ∷ rs) [] = []
admitted k (r ∷ rs) (v ∷ vs) =
    let skip = admitted k rs (v ∷ vs) in
    let rest = admitted k rs vs in
    if r.key == k then (if v then rest else r.recorded_at ∷ rest) else skip

admitted-nil : (k : String) (rs : List Request) → admitted k rs [] ≡ []
admitted-nil k [] = refl
admitted-nil k (r ∷ rs) = refl

admitted-skip :
    (k : String) (r : Request) (rs : List Request) (vs : List Bool)
    → (r.key == k) ≡ false
    → admitted k (r ∷ rs) vs ≡ admitted k rs vs
admitted-skip k r rs [] ne = sym (admitted-nil k rs)
admitted-skip k r rs (v ∷ vs) ne = rw ne refl

-- the log grows by exactly the admitted calls
pub final_log-admitted :
    (k : String) (m w : ℕ) (rs : List Request) (log : List ℕ)
    → final_log k m w rs log ≡ log ++ admitted k rs (reference k m w rs log)
final_log-admitted k m w [] log = sym (append-nil log)
final_log-admitted k m w (r ∷ rs) log = elim (Bool-cases (r.key == k)) [
  | inr ne ↦ rw ne (
      final_log-admitted k m w rs log
      ∙ ap (λ l. log ++ l) (sym (admitted-skip k r rs (reference k m w rs log) ne)))
  | inl e ↦ elim (Bool-cases (leb m (length (live r.counted_at w log)))) [
    | inl full ↦ rw (e, full, e) (final_log-admitted k m w rs log)
    | inr free ↦
        rw (e, free, e)
          (final_log-admitted k m w rs (log ++ r.recorded_at ∷ [])
            ∙ append_assoc log (r.recorded_at ∷ [])
                (admitted k rs (reference k m w rs (log ++ r.recorded_at ∷ []))))
  ]
]
