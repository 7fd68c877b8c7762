-- ===== src/RateLimit/Refines.antt =====
-- The limiter over the process's memory gives the answers of the reference limiter.
use b8mon.Base.{
  ℕ, ◌*◌, ◌≤◌, String, ◌≡◌, refl, ap, sym, ◌∙◌, false, List, [], ◌∷◌, leb, string_eq, ◌==◌, ==_true,
  ==_false, length, Bool-cases, inl, inr,
}
use b8mon.SharedState.{fresh, live, mem_count}
use b8mon.SharedState.Agrees.{
  Agrees, Agrees-later, hits_of, mem_count-Agrees, mem_incr-Agrees, mem_count-Agrees_ne,
  mem_incr-Agrees_ne, length-mem_count,
}
use b8mon.SharedState.Redis.{Client, Shared, incr_window, window_count}
use b8mon.RateLimit.{Request, is_limited, verdicts, Ordered, Fits}
use mathlib.Core.Path.{subst}
use b8mon.RateLimit.Reference.{
  reference, log_call, admitted, final_time, final_log-admitted, reference_bound,
}

module _ (c : Client) where
  -- what a call on the key's own limit answers, and what it leaves
  own_call :
      (r : Request) (s : Shared c) (log : List ℕ)
      → r.counted_at ≤ r.recorded_at
      → Agrees r.window r.counted_at (hits_of r.key s.memory) log
      → ((is_limited c false r s).0 ≡ leb r.max_requests (length (live r.counted_at r.window log)))
        × Agrees r.window r.recorded_at
            (hits_of r.key (is_limited c false r s).1.memory)
            (log_call r.max_requests r.window r log)
  unfolding is_limited window_count incr_window
  own_call r s log h a =
      let counted = mem_count-Agrees r.key r.window r.counted_at log s.memory a in
      let same : (mem_count r.key r.window r.counted_at s.memory).0
          ≡ length (live r.counted_at r.window log) =
        rw length-mem_count (ap length a.same) in
      elim (Bool-cases (leb r.max_requests (length (live r.counted_at r.window log)))) [
        | inl e ↦
            rw (same, e) (refl, Agrees-later r.window r.counted_at r.recorded_at _ log h counted)
        | inr e ↦
            rw (same, e)
              (
                refl,
                mem_incr-Agrees r.key r.window r.recorded_at log _
                    (Agrees-later r.window r.counted_at r.recorded_at _ log h counted),
              )
      ]

  other_call :
      (k : String) (w : ℕ) (r : Request) (s : Shared c) (log : List ℕ)
      → (r.key == k) ≡ false
      → w ≤ r.window * 2
      → r.counted_at ≤ r.recorded_at
      → Agrees w r.counted_at (hits_of k s.memory) log
      → Agrees w r.recorded_at (hits_of k (is_limited c false r s).1.memory) log
  unfolding is_limited window_count incr_window
  other_call k w r s log ne h o a =
      let later =
        Agrees-later w r.counted_at r.recorded_at _ log o
          (mem_count-Agrees_ne k w r.counted_at log r.key r.window s.memory ne a) in
      elim (Bool-cases (leb r.max_requests (mem_count r.key r.window r.counted_at s.memory).0)) [
        | inl e ↦ rw e later
        | inr e ↦ rw e (mem_incr-Agrees_ne k w r.recorded_at log r.key r.window _ ne h later)
      ]

  verdicts-Agrees :
      (k : String) (m w lo : ℕ) (rs : List Request) (s : Shared c) (log : List ℕ)
      → Ordered lo rs
      → Fits k m w rs
      → Agrees w lo (hits_of k s.memory) log
      → verdicts c false k rs s ≡ reference k m w rs log
  unfolding verdicts
  verdicts-Agrees k m w lo [] s log o f a = refl
  verdicts-Agrees k m w lo (r ∷ rs) s log o (inl (ek, em, ew), f) a =
      let a' : Agrees r.window r.counted_at (hits_of r.key s.memory) log =
        rw (ek, ew) (Agrees-later w lo r.counted_at _ log o.0 a) in
      let (answer, next) = own_call r s log o.1 a' in
      let next' : Agrees w r.recorded_at (hits_of k (is_limited c false r s).1.memory)
          (log_call m w r log) =
        rw (← ek, ← em, ← ew) next in
      let answer' : (is_limited c false r s).0 ≡ leb m (length (live r.counted_at w log)) =
        rw (← em, ← ew) answer in
      let rest =
        verdicts-Agrees k m w r.recorded_at rs (is_limited c false r s).1 (log_call m w r log) o.2 f
          next' in
      rw (==_true {A = String} r.key k ek) (λ i. answer' i ∷ rest i)
  verdicts-Agrees k m w lo (r ∷ rs) s log o (inr (ne, h), f) a =
      let no = ==_false {A = String} r.key k ne in
      rw no (
        verdicts-Agrees k m w r.recorded_at rs (is_limited c false r s).1 log o.2 f
          (other_call k w r s log no h o.1 (Agrees-later w lo r.counted_at _ log o.0 a)))

  -- Over the process's memory, starting from an empty one, the calls on one key get exactly the
  -- answers of the reference limiter, whatever other keys are called in between, as long as the clock
  -- does not go back, all calls on the key use the limit `m` and the window `w`, and no other call's
  -- window is shorter than half of `w`.
  pub verdicts-reference :
      (k : String) (m w : ℕ) (rs : List Request) (s : Shared c)
      → s.memory ≡ fresh
      → Ordered 0 rs
      → Fits k m w rs
      → verdicts c false k rs s ≡ reference k m w rs []
  verdicts-reference k m w rs s e o f =
      verdicts-Agrees k m w 0 rs s [] o f (rw e (record { same = refl; ascends = tt; past = tt }))

  -- The limit holds over the process's memory, starting from an empty one: if the clock does not go
  -- back, all calls on the key use the limit `m` and the window `w`, and no other call's window is
  -- shorter than half of `w`, then when the last call of a sequence is over, at most `m` calls on the
  -- key were let through in the window that ends there.
  pub admitted_bound :
      (k : String) (m w : ℕ) (rs : List Request) (s : Shared c)
      → s.memory ≡ fresh
      → Ordered 0 rs
      → Fits k m w rs
      → length (live (final_time 0 rs) w (admitted k rs (verdicts c false k rs s))) ≤ m
  admitted_bound k m w rs s e o f =
      let same =
        final_log-admitted k m w rs []
        ∙ ap (admitted k rs) (sym (verdicts-reference k m w rs s e o f)) in
      subst (λ l. length (live (final_time 0 rs) w l) ≤ m) same (reference_bound k m w rs o)
