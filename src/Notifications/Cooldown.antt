-- ===== src/Notifications/Cooldown.antt =====
-- The cooldown of a title, with and without the forgetting of old entries.
use b8mon.Base.{
  ℕ, ◌+◌, ◌*◌, ◌≤◌, ◌<◌, String, ◌≡◌, ◌⊎◌, refl, sym, ap, inl, inr, Bool, true, false, Option, none,
  some, List, [], ◌∷◌, arith, ltb, string_eq, ◌==◌, ==_refl, if◌then◌else◌, no_entries, assign,
  Bool-cases,
}
use b8mon.Notifications.{
  Recent, forget_stale, is_cooling, title_key, is_rate_limited, cooldown_seconds, Settings, notify,
}

-- a title and the time of the call
abbrev pub Call : Type 0
Call = String × ℕ

pub verdicts : List Call → Recent → List Bool
verdicts [] recent = []
verdicts ((title, now) ∷ calls) recent =
    let (limited, recent') = is_rate_limited title now recent in limited ∷ verdicts calls recent'

-- The same without forgetting: a title may go out again 300 seconds after it last did.
abbrev pub reference : List Call → Recent → List Bool
reference [] last = []
reference ((title, now) ∷ calls) last =
    is_cooling now (last (title_key title))
    ∷ reference calls (
        if is_cooling now (last (title_key title)) then last else assign (title_key title) now last)

-- the clock does not go back
abbrev pub Ordered : ℕ → List Call → Type 0
Ordered lo [] = Unit {0}
Ordered lo ((title, now) ∷ calls) = (lo ≤ now) × Ordered now calls

-- an entry is the same, or is forgotten and too old to matter
abbrev Agree : ℕ → Option ℕ → Option ℕ → Type 0
Agree now o l = (o ≡ l) ⊎ ((o ≡ none) × (v : ℕ) × (l ≡ some v) × (v + 600 < now))

abbrev Agrees : ℕ → Recent → Recent → Type 0
Agrees now recent last = (k : String) → Agree now (recent k) (last k)

Agree-later : (lo now : ℕ) (o l : Option ℕ) → lo ≤ now → Agree lo o l → Agree now o l
Agree-later lo now o l le (inl e) = inl e
Agree-later lo now o l le (inr (e, v, f, old)) = inr (e, v, f, omega arith)

abbrev forget : ℕ → Option ℕ → Option ℕ
forget now none = none
forget now (some v) = if ltb (v + 600) now then none else some v

Agree-forget : (now : ℕ) (o l : Option ℕ) → Agree now o l → Agree now (forget now o) l
Agree-forget now none l a = a
Agree-forget now (some v) l (inr (e, u, f, old)) = cc e
Agree-forget now (some v) l (inl e) = elim (Bool-cases (ltb (v + 600) now)) [
  | inl y ↦ rw y (inr (refl, v, sym e, old y))
  | inr n ↦ rw n (inl e)
]
  where
    old : ltb (v + 600) now ≡ true → v + 600 < now
    old y = ground arith

is_cooling-Agree : (now : ℕ) (o l : Option ℕ) → Agree now o l → is_cooling now o ≡ is_cooling now l
is_cooling-Agree now o l (inl e) = ap (is_cooling now) e
is_cooling-Agree now o l (inr (e, v, f, old)) = rw (e, f) (sym late)
  where
    late : is_cooling now (some v) ≡ false
    late = ground arith

Agree-forget_stale :
    (now : ℕ) (recent last : Recent)
    → Agrees now recent last
    → Agrees now (forget_stale now recent) last
Agree-forget_stale now recent last a k = forgets (recent k) (a k)
  where
    forgets :
        (o : Option ℕ)
        → Agree now o (last k)
        → Agree now
            (elim o [
              | none ↦ none
              | some v ↦ if ltb (v + cooldown_seconds * 2) now then none else some v
            ])
            (last k)
    forgets none b = Agree-forget now none (last k) b
    forgets (some v) b = Agree-forget now (some v) (last k) b

Agrees-assign :
    (now : ℕ) (j : String) (recent last : Recent)
    → Agrees now recent last
    → Agrees now (assign j now recent) (assign j now last)
Agrees-assign now j recent last a k = elim (Bool-cases (j == k)) [
  | inl y ↦ rw y (inl refl)
  | inr n ↦ rw n (a k)
]

verdicts-Agrees :
    (lo : ℕ) (calls : List Call) (recent last : Recent)
    → Ordered lo calls
    → Agrees lo recent last
    → verdicts calls recent ≡ reference calls last
unfolding verdicts is_rate_limited
verdicts-Agrees lo [] recent last o a = refl
verdicts-Agrees lo ((title, now) ∷ calls) recent last (le, o) a =
    let k = title_key title in
    let kept = Agree-forget_stale now recent last (λ j. Agree-later lo now _ _ le (a j)) in
    let same = is_cooling-Agree now (forget_stale now recent k) (last k) (kept k) in
    elim (Bool-cases (is_cooling now (last k))) [
      | inl y ↦
          rw (same, y)
            (ap (λ l. true ∷ l) (verdicts-Agrees now calls (forget_stale now recent) last o kept))
      | inr n ↦
          rw (same, n)
            (ap (λ l. false ∷ l)
              (verdicts-Agrees now calls (assign k now (forget_stale now recent))
                (assign k now last) o (Agrees-assign now k (forget_stale now recent) last kept)))
    ]

-- From the start of the process, with a clock that does not go back, a notification is held back
-- exactly when one with the same title, up to case and outer blanks, went through less than 300
-- seconds before. Forgetting old entries makes no difference.
pub verdicts-cooldown :
    (calls : List Call) → Ordered 0 calls → verdicts calls no_entries ≡ reference calls no_entries
verdicts-cooldown calls o = verdicts-Agrees 0 calls no_entries no_entries o (λ k. inl refl)

-- a call that is held back, and one that is not while notifications are off
notify-limited :
    (s : Settings) (send : String → Option String) (title message severity : String)
    (channels : Option (List String)) (now : ℕ) (recent : Recent)
    → (is_rate_limited title now recent).0 ≡ true
    → (notify s send title message severity channels now recent).0 ≡ some []
unfolding notify
notify-limited s send title message severity channels now recent h = rw h refl

notify-off :
    (s : Settings) (send : String → Option String) (title message severity : String)
    (channels : Option (List String)) (now : ℕ) (recent : Recent)
    → (is_rate_limited title now recent).0 ≡ false
    → (s.enabled == "1") ≡ false
    → let (log, recent') = notify s send title message severity channels now recent in
      (log ≡ some []) × (recent' ≡ (is_rate_limited title now recent).1)
unfolding notify
notify-off s send title message severity channels now recent h e = (rw (h, e) refl, rw (h, e) refl)

assign_self : (now : ℕ) (recent : Recent) (k : String) → assign k now recent k ≡ some now
assign_self now recent k = rw (==_refl {A = String} k) refl

kept :
    (later : ℕ) (recent : Recent) (k : String) (v : ℕ)
    → recent k ≡ some v
    → ltb (v + 600) later ≡ false
    → forget_stale later recent k ≡ some v
kept later recent k v e h = rw (e, forget_stale) (rw h refl)

is_rate_limited-again :
    (title : String) (now later : ℕ) (recent : Recent)
    → (is_rate_limited title now recent).0 ≡ false
    → now ≤ later
    → later < now + cooldown_seconds
    → (is_rate_limited title later (is_rate_limited title now recent).1).0 ≡ true
unfolding is_rate_limited
is_rate_limited-again title now later recent h le lt =
    elim (Bool-cases (is_cooling now (forget_stale now recent (title_key title)))) [
      | inl y ↦ cc (rw y at h)
      | inr n ↦ rw (n, entry, cooling) refl
    ]
  where
    fresh : ltb (now + 600) later ≡ false
    fresh = ground arith

    cooling : ltb later (now + 300) ≡ true
    cooling = ground arith

    entry :
        forget_stale later
          (assign (title_key title) now (forget_stale now recent))
          (title_key title)
        ≡ some now
    entry =
        kept later (assign (title_key title) now (forget_stale now recent)) (title_key title) now
          (assign_self now (forget_stale now recent) (title_key title)) fresh

-- A notification that goes through the cooldown while notifications are switched off is sent
-- nowhere, and still any other one with its title in the next 300 seconds is held back, whatever
-- the settings are by then.
pub notify-switched_off :
    (off on : Settings) (send : String → Option String)
    (title message message' severity severity' : String) (channels channels' : Option (List String))
    (now later : ℕ) (recent : Recent)
    → (is_rate_limited title now recent).0 ≡ false
    → (off.enabled == "1") ≡ false
    → now ≤ later
    → later < now + cooldown_seconds
    → let (first, recent') = notify off send title message severity channels now recent in
      (first ≡ some [])
      × ((notify on send title message' severity' channels' later recent').0 ≡ some [])
notify-switched_off off on send title message message' severity severity' channels channels' now
      later recent free off_now le lt =
    let (nothing, same) =
      notify-off off send title message severity channels now recent free off_now in
    let again = is_rate_limited-again title now later recent free le lt in
    (nothing, notify-limited on send title message' severity' channels' later _ (rw same again))
