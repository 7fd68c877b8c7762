-- ===== src/SharedState/Agrees.antt =====
-- The hits that the process keeps for a key stand for the log of its admitted calls: the same part
-- of both is live.
use b8mon.Base.{
  ℕ, ◌+◌, ◌*◌, ◌≤◌, String, ◌≡◌, refl, sym, ◌∙◌, false, List, [], ◌∷◌, ◌++◌, arith, string_eq, ◌==◌,
  ==_refl, length, All, keep-append, or_else, ap, Bool-cases, Option-cases, inl, inr, ltb,
}
use b8mon.SharedState.{Memory, is_live, live, is_dead, cleanup_locked, clean, mem_incr, mem_count}
use b8mon.SharedState.Window.{
  live-live, Ascends, Ascends-live, Ascends-snoc, All-live, All-le_later, All-snoc, live-is_dead,
}

pub record Agrees (w now : ℕ) (hits log : List ℕ) : Type 0 where
  pub same : live now w hits ≡ live now w log
  pub ascends : Ascends 0 hits
  pub past : All (λ t. t ≤ now) hits

module _ (w : ℕ) where
  pub Agrees-later :
      (now later : ℕ) (hits log : List ℕ)
      → now ≤ later
      → Agrees w now hits log
      → Agrees w later hits log
  Agrees-later now later hits log h a = record {
    same =
        sym (live-live w now later hits h) ∙ ap (live later w) a.same ∙ live-live w now later log h;
    ascends = a.ascends;
    past = All-le_later now later hits h a.past;
  }

  pub Agrees-live :
      (now : ℕ) (hits log : List ℕ) → Agrees w now hits log → Agrees w now (live now w hits) log
  Agrees-live now hits log a = record {
    same = live-live w now now hits (omega arith) ∙ a.same;
    ascends = Ascends-live w now 0 hits a.ascends;
    past = All-live (λ t. t ≤ now) w now hits a.past;
  }

  pub Agrees-snoc :
      (now : ℕ) (hits log : List ℕ)
      → Agrees w now hits log
      → Agrees w now (hits ++ now ∷ []) (log ++ now ∷ [])
  Agrees-snoc now hits log a = record {
    same = rw (keep-append (is_live now w) hits, keep-append (is_live now w) log, a.same);
    ascends = Ascends-snoc 0 now hits a.ascends (omega arith) a.past;
    past = All-snoc now hits a.past;
  }

  Agrees-nil :
      (now : ℕ) (hits log : List ℕ)
      → live now w hits ≡ []
      → Agrees w now hits log
      → Agrees w now [] log
  Agrees-nil now hits log e a = record { same = sym e ∙ a.same; ascends = tt; past = tt }

abbrev pub hits_of : String → Memory → List ℕ
hits_of k m = or_else (m.hits k) []

module _ (k : String) (w now : ℕ) (log : List ℕ) where
  cleanup_locked-Agrees :
      (w' : ℕ) (m : Memory)
      → w ≤ w' * 2
      → Agrees w now (hits_of k m) log
      → Agrees w now (hits_of k (cleanup_locked now w' m)) log
  unfolding cleanup_locked
  cleanup_locked-Agrees w' m h a = elim (Option-cases (m.hits k)) [
    | inl e ↦ rw e (rw e at a)
    | inr (v, e) ↦
        let a' : Agrees w now v log = rw e at a in
        elim (Bool-cases (is_dead now w' v)) [
          | inl d ↦ rw (e, d) (Agrees-nil w now v log (live-is_dead w w' now 0 v a'.ascends h d) a')
          | inr d ↦ rw (e, d) a'
        ]
  ]

  -- A cleanup for a window of at least half the length forgets no live hit.
  pub clean-Agrees :
      (w' : ℕ) (m : Memory)
      → w ≤ w' * 2
      → Agrees w now (hits_of k m) log
      → Agrees w now (hits_of k (clean now w' m)) log
  unfolding clean
  clean-Agrees w' m h a = elim (Bool-cases (ltb (m.last_cleanup + 300) now)) [
    | inl e ↦ rw e (cleanup_locked-Agrees w' m h a)
    | inr e ↦ rw e a
  ]

  pub mem_count-Agrees :
      (m : Memory)
      → Agrees w now (hits_of k m) log
      → Agrees w now (hits_of k (mem_count k w now m).1) log
  unfolding mem_count
  mem_count-Agrees m a = elim (Option-cases (m.hits k)) [
    | inl e ↦ rw e a
    | inr (v, e) ↦ rw (e, ==_refl {A = String} k) (Agrees-live w now (hits_of k m) log a)
  ]

  pub mem_incr-Agrees :
      (m : Memory)
      → Agrees w now (hits_of k m) log
      → Agrees w now (hits_of k (mem_incr k w now m).1) (log ++ now ∷ [])
  unfolding mem_incr
  mem_incr-Agrees m a =
      rw (==_refl {A = String} k)
        (Agrees-snoc w now _ log (Agrees-live w now _ log (clean-Agrees w m (omega arith) a)))

  -- Calls on another key: only their cleanup can touch this one.
  pub mem_count-Agrees_ne :
      (j : String) (w' : ℕ) (m : Memory)
      → (j == k) ≡ false
      → Agrees w now (hits_of k m) log
      → Agrees w now (hits_of k (mem_count j w' now m).1) log
  unfolding mem_count
  mem_count-Agrees_ne j w' m ne a = elim (Option-cases (m.hits j)) [
    | inl e ↦ rw e a
    | inr (v, e) ↦ rw (e, ne) a
  ]

  pub mem_incr-Agrees_ne :
      (j : String) (w' : ℕ) (m : Memory)
      → (j == k) ≡ false
      → w ≤ w' * 2
      → Agrees w now (hits_of k m) log
      → Agrees w now (hits_of k (mem_incr j w' now m).1) log
  unfolding mem_incr
  mem_incr-Agrees_ne j w' m ne h a = rw ne (clean-Agrees w' m h a)

-- What the two counters return.
pub length-mem_count :
    (k : String) (w now : ℕ) (m : Memory)
    → (mem_count k w now m).0 ≡ length (live now w (hits_of k m))
unfolding mem_count
length-mem_count k w now m = refl
