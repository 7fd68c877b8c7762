-- ===== src/Syslog/Tests.antt =====
-- Three messages of two sources, and an insert that fails once.
use b8mon.Base.{suc, min, String, ◌≡◌, refl, true, none, List, [], ◌∷◌, map, arith, string_eq}
use b8mon.Syslog.{
  Intake, rate_max, Message, Row, returns, raises, pick, cap, flush_buffer, enqueue, clean_row,
  connect,
}
use b8mon.Syslog.Window.{Arrival, IsWithin, accepted, sent, accepted-min}
use b8mon.Syslog.Delivery.{
  Event, arrives, flushes, handle_all, doubled_all, arrivals, rows, nothing, handle_all-arrivals,
}
use b8mon.Syslog.Repeats.{content, Repeats}
use b8mon.Syslog.Connections.{Server, Reach, start, next, admitted, IsBounded, Reach-IsBounded}

abbrev intake : Intake
intake = record { counts = []; dropped = []; global = record { count = 0; since = 0 } }

abbrev later : List Arrival
later = ("10.0.0.2", 101) ∷ ("10.0.0.1", 105) ∷ []

later-IsWithin : IsWithin 100 later
later-IsWithin = (omega arith, (omega arith, tt))

accepted-min_example :
    accepted "10.0.0.1" (("10.0.0.1", 100) ∷ later) intake
    ≡ min (suc (sent "10.0.0.1" later)) rate_max
accepted-min_example = accepted-min "10.0.0.1" 100 later intake refl later-IsWithin

abbrev message : String → Message
message text = record {
  other = text;
  tags = none;
  template_hash = none;
  noise_score = none;
  received_at = none;
  extracted_fields = none;
}

abbrev other_of : Row → String
other_of r = r.other

-- an insert that fails has stored its row, which is then stored again
abbrev events : List Event
events =
    arrives (message "a") 5 returns
    ∷ flushes 7 (raises (true ∷ []))
    ∷ arrives (message "b") 8 returns
    ∷ flushes 9 returns
    ∷ arrives (message "c") 9 returns
    ∷ []

handle_all-arrivals_example :
    Repeats
      (map content (arrivals events))
      (map content (arrivals events))
      (rows (handle_all events nothing))
      (doubled_all events nothing)
handle_all-arrivals_example = handle_all-arrivals events (omega arith)

two_copies : map other_of (handle_all events nothing).stored ≡ "a" ∷ "a" ∷ "b" ∷ []
unfolding enqueue flush_buffer clean_row cap pick
two_copies = refl

abbrev one : Server
one = record { counter = (connect 0).1; open_handlers = 1 }

let_in : (connect 0).0 ≡ true
unfolding connect
let_in = refl

one-Reach : Reach one
one-Reach = next start (admitted (record { counter = 0; open_handlers = 0 }) let_in)

Reach-IsBounded_example : IsBounded one
Reach-IsBounded_example = Reach-IsBounded one-Reach
