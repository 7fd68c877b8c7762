-- ===== src/Syslog/Delivery.antt =====
-- What arrives is stored in order and, unless an insert that fails stores rows, once, as long as the
-- buffer's cap is not reached.
use mathlib.Core.List.{Memᴰ, append_assoc, append-nil}
use mathlib.Core.List.Memᴰ
use b8mon.Base.{
  ℕ, suc, ◌+◌, ◌-◌, ◌≤◌, ◌≡◌, refl, sym, ◌∙◌, inl, inr, false, List, [], ◌∷◌, ◌++◌, map, arith, ltb,
  leb, length, length-append, length-drop, Bool-cases, if◌then◌else◌,
}
use b8mon.Syslog.{
  Message, Row, Pipe, cap, Insert, returns, raises, pick, flush_buffer, enqueue, buffer_max,
  buffer_size,
}
use b8mon.Syslog.Repeats.{
  unstamped, content, Repeats, done, AllAmong, Repeats-snoc, Repeats-middle, AllAmong-snoc,
  AllAmong-pick, map-append, stored-rows,
}

-- an arrival that is enqueued, or a round of `_flush_loop`, by the clock and by what becomes of the
-- insert if there is one
pub data Event : Type 0 where
  arrives : Message → ℕ → Insert → Event
  flushes : ℕ → Insert → Event

abbrev pub handle : Event → Pipe → Pipe
handle (arrives m now insert) p = enqueue insert now m p
handle (flushes now insert) p = flush_buffer insert now p

abbrev pub handle_all : List Event → Pipe → Pipe
handle_all [] p = p
handle_all (e ∷ es) p = handle_all es (handle e p)

-- how many rows an insert leaves in the table although it raises
abbrev pub left_behind : Insert → List Message → ℕ
left_behind returns ms = 0
left_behind (raises bs) ms = length (pick bs ms)

abbrev pub doubled : Event → Pipe → ℕ
doubled (arrives m now insert) p =
    let b = cap (p.buffer ++ m ∷ []) in
    if leb buffer_size (length b) then left_behind insert b else 0
doubled (flushes now insert) p = left_behind insert p.buffer

abbrev pub doubled_all : List Event → Pipe → ℕ
doubled_all [] p = 0
doubled_all (e ∷ es) p = doubled e p + doubled_all es (handle e p)

-- the messages that arrive, in order
abbrev pub arrivals : List Event → List Message
arrivals [] = []
arrivals (arrives m now insert ∷ es) = m ∷ arrivals es
arrivals (flushes now insert ∷ es) = arrivals es

-- everything that is stored, and then everything that waits
abbrev pub rows : Pipe → List Row
rows p = map unstamped p.stored ++ map content p.buffer

cap-id : (ms : List Message) → length ms ≤ buffer_max → cap ms ≡ ms
unfolding cap
cap-id ms h = rw (small h) refl
  where
    small : length ms ≤ 50000 → ltb 50000 (length ms) ≡ false
    small h = ground arith

length-cap : (ms : List Message) → length (cap ms) ≤ buffer_max
unfolding cap
length-cap ms = elim (Bool-cases (ltb 50000 (length ms))) [
  | inl y ↦ rw y (omega (arith, length-drop (length ms - 50000) ms))
  | inr n ↦ rw n (ground arith)
]

-- The rows are those of what has arrived, with `n` more that are among `all`.
record Delivered (all past : List Row) (p : Pipe) (n : ℕ) : Type 0 where
  kept : Repeats all past (rows p) n
  waiting : AllAmong all (map content p.buffer)

module _ (all : List Row) where
  Delivered-same :
      {past : List Row} {p : Pipe} {n k : ℕ}
      → n ≡ k
      → Delivered all past p n
      → Delivered all past p k
  Delivered-same e d = rw (← e) d

  Delivered-past :
      {past later : List Row} {p : Pipe} {n : ℕ}
      → past ≡ later
      → Delivered all past p n
      → Delivered all later p n
  Delivered-past e d = rw (← e) d

  flush_buffer-Delivered :
      (insert : Insert) (now : ℕ) (b : List Message) (stored : List Row) (past : List Row) (n : ℕ)
      → length b ≤ buffer_max
      → Delivered all past (record { buffer = b; stored = stored }) n
      → let p' = flush_buffer insert now (record { buffer = b; stored = stored }) in
        Delivered all past p' (left_behind insert b + n) × (length p'.buffer ≤ length b)
  unfolding flush_buffer pick
  flush_buffer-Delivered returns now [] stored past n h d =
      (Delivered-same (omega arith) d, omega arith)
  flush_buffer-Delivered (raises []) now [] stored past n h d =
      (Delivered-same (omega arith) d, omega arith)
  flush_buffer-Delivered (raises (b ∷ bs)) now [] stored past n h d =
      (Delivered-same (omega arith) d, omega arith)
  flush_buffer-Delivered returns now (m ∷ ms) stored past n h d = (
    Delivered-same {n = n} (omega arith) (record {
      kept =
          rw
            (
              stored-rows now stored (m ∷ ms),
              append-nil (map unstamped stored ++ map content (m ∷ ms)),
            )
            d.kept;
      waiting = tt;
    }),
    omega arith,
  )
  flush_buffer-Delivered (raises bs) now (m ∷ ms) stored past n h d =
      let q = pick bs (m ∷ ms) in
      rw (cap-id (m ∷ ms) h) (
        record {
          kept =
              rw
                (
                  stored-rows now stored q,
                  append_assoc (map unstamped stored) (map content q) (map content (m ∷ ms)),
                )
                (Repeats-middle all (map unstamped stored) q (map content (m ∷ ms))
                  (AllAmong-pick all bs (m ∷ ms) d.waiting) d.kept);
          waiting = d.waiting;
        },
        omega arith,
      )

  arrived-Delivered :
      (m : Message) (p : Pipe) (past : List Row) (n : ℕ)
      → Memᴰ (content m) all
      → Delivered all past p n
      → Delivered all (past ++ content m ∷ []) (record p { buffer = p.buffer ++ m ∷ [] }) n
  arrived-Delivered m p past n e d =
      let one = map-append content p.buffer (m ∷ []) in
      record {
        kept =
            rw
              (one, ← append_assoc (map unstamped p.stored) (map content p.buffer) (content m ∷ []))
              (Repeats-snoc all (content m) d.kept);
        waiting = rw one (AllAmong-snoc all (content m) (map content p.buffer) d.waiting e);
      }

  enqueue-Delivered :
      (insert : Insert) (now : ℕ) (m : Message) (p : Pipe) (past : List Row) (n : ℕ)
      → suc (length p.buffer) ≤ buffer_max
      → Memᴰ (content m) all
      → Delivered all past p n
      → let p' = enqueue insert now m p in
        Delivered all (past ++ content m ∷ []) p' (doubled (arrives m now insert) p + n)
        × (length p'.buffer ≤ suc (length p.buffer))
  unfolding enqueue
  enqueue-Delivered insert now m p past n h e d =
      let b = p.buffer ++ m ∷ [] in
      let one : length b ≡ suc (length p.buffer) = omega (arith, length-append p.buffer (m ∷ [])) in
      let below : length b ≤ buffer_max = omega (arith, one) in
      let waits = arrived-Delivered m p past n e d in
      let (d', less) =
        flush_buffer-Delivered insert now b p.stored (past ++ content m ∷ []) n below waits in
      rw (cap-id b below) (elim (Bool-cases (leb buffer_size (length b))) [
        | inl y ↦ rw y (d', omega (arith, less, one))
        | inr few ↦ rw few (Delivered-same (omega arith) waits, omega (arith, one))
      ])

  handle_all-Delivered :
      (es : List Event) (p : Pipe) (past : List Row) (n : ℕ)
      → length p.buffer + length (arrivals es) ≤ buffer_max
      → past ++ map content (arrivals es) ≡ all
      → Delivered all past p n
      → Delivered all all (handle_all es p) (doubled_all es p + n)
  handle_all-Delivered [] p past n h e d =
      Delivered-past (sym (append-nil past) ∙ e) (Delivered-same {n = n} (omega arith) d)
  handle_all-Delivered (arrives m now insert ∷ es) p past n h e d =
      let rest = map content (arrivals es) in
      let here : Memᴰ (content m) all = rw (← e) (Memᴰ.append_right past (Memᴰ.head refl)) in
      let (d', less) = enqueue-Delivered insert now m p past n (omega arith) here d in
      Delivered-same (omega arith) (
        handle_all-Delivered es (enqueue insert now m p) (past ++ content m ∷ [])
          (doubled (arrives m now insert) p + n) (omega (arith, less))
          (append_assoc past (content m ∷ []) rest ∙ e) d')
  handle_all-Delivered (flushes now insert ∷ es) p past n h e d =
      let (d', less) = flush_buffer-Delivered insert now p.buffer p.stored past n (omega arith) d in
      Delivered-same (omega arith) (
        handle_all-Delivered es (flush_buffer insert now p) past (left_behind insert p.buffer + n)
          (omega (arith, less)) e d')

abbrev pub nothing : Pipe
nothing = record { buffer = []; stored = [] }

-- Whatever inserts fail, whenever the buffer is flushed and whatever rows a failing insert has stored:
-- as long as no more messages have arrived than the buffer may hold, the rows that are stored and then
-- those that wait are the messages that arrived, in their order and none missing, with further copies
-- of them in between; the copies are exactly as many as the rows that inserts stored before
-- they failed, so that each message is there once if a failing insert stores nothing. The time that
-- a flush stamps on a row is left aside.
pub handle_all-arrivals :
    (es : List Event)
    → length (arrivals es) ≤ buffer_max
    → let arrived = map content (arrivals es) in
      Repeats arrived arrived (rows (handle_all es nothing)) (doubled_all es nothing)
handle_all-arrivals es h =
    let all = map content (arrivals es) in
    let d =
      handle_all-Delivered all es nothing [] 0 (omega arith) refl
        (record { kept = done; waiting = tt }) in
    Delivered.kept (Delivered-same all (omega arith) d)

flush_buffer-bound :
    (insert : Insert) (now : ℕ) (b : List Message) (stored : List Row)
    → length b ≤ buffer_max
    → length (flush_buffer insert now (record { buffer = b; stored = stored })).buffer ≤ buffer_max
unfolding flush_buffer
flush_buffer-bound returns now [] stored h = h
flush_buffer-bound (raises bs) now [] stored h = h
flush_buffer-bound returns now (m ∷ ms) stored h = omega arith
flush_buffer-bound (raises bs) now (m ∷ ms) stored h = length-cap (m ∷ ms)

enqueue-bound :
    (insert : Insert) (now : ℕ) (m : Message) (p : Pipe)
    → length (enqueue insert now m p).buffer ≤ buffer_max
unfolding enqueue
enqueue-bound insert now m p =
    let capped = cap (p.buffer ++ m ∷ []) in
    let small = length-cap (p.buffer ++ m ∷ []) in
    elim (Bool-cases (leb buffer_size (length capped))) [
      | inl y ↦ rw y (flush_buffer-bound insert now capped p.stored small)
      | inr n ↦ rw n small
    ]

-- The buffer never holds more than its cap, whatever arrives and however many inserts fail.
pub handle_all-bound :
    (es : List Event) (p : Pipe)
    → length p.buffer ≤ buffer_max
    → length (handle_all es p).buffer ≤ buffer_max
handle_all-bound [] p h = h
handle_all-bound (arrives m now insert ∷ es) p h =
    handle_all-bound es (enqueue insert now m p) (enqueue-bound insert now m p)
handle_all-bound (flushes now insert ∷ es) p h =
    handle_all-bound es (flush_buffer insert now p)
      (flush_buffer-bound insert now p.buffer p.stored h)
