-- ===== src/BtSerial/Steps.antt =====
-- The port as a state machine: the stack reports an event, the sketch writes or reads, the sending
-- task does a round, and the other tasks choose what they will do while that task waits.
use jedge.Base.{some_inj, ℕ, ◌≡◌, Bool, List, some, sym, ◌∙◌}
use jedge.BtSerial.Stack.{SppEvent, Act, Stack, Port}
use jedge.BtSerial.Events.{spp_cb}
use jedge.BtSerial.Sending.{write, read, tx_round}
use mathlib.Core.Path.{subst}
use jedge.BtSerial.Waits.{write-IsValid, read_from-IsValid}
use jedge.BtSerial.Link.{IsEvent, IsSchedule, IsValid, spp_cb-IsValid}
use jedge.BtSerial.Rounds.{tx_round-IsValid}

pub data Step {stack : Stack} (s t : Port stack) : Type 0 where
  event : (e : SppEvent) → IsEvent e → t ≡ spp_cb e s → Step s t
  writes : (x : List ℕ) (allocated : Bool) → t ≡ (write x allocated s).1 → Step s t
  reads : t ≡ (read s).1 → Step s t
  chosen : (w : List (List Act)) → IsSchedule w → t ≡ record s { schedule = w } → Step s t
  sends : tx_round s ≡ some t → Step s t

pub data Reach {stack : Stack} (s : Port stack) : Port stack → Type 0 where
  here : Reach s s
  next : {t u : Port stack} → Reach s t → Step t u → Reach s u

Step-IsValid : {stack : Stack} {s t : Port stack} → IsValid s → Step s t → IsValid t
Step-IsValid {s = s} v (event e h q) = rw q (spp_cb-IsValid e s h v)
Step-IsValid {s = s} v (writes x a q) = rw q (write-IsValid x a s v)
Step-IsValid {s = s} v (reads q) = rw q (read_from-IsValid s.rx_queue s v.1.0 v)
Step-IsValid {s = s} v (chosen w h q) = rw q (v.0, (v.1.0, v.1.1, h, v.1.3, v.1.4))
Step-IsValid {s = s} {t = t} v (sends q) =
    let (u, e, w) = tx_round-IsValid s v in subst IsValid (some_inj (sym e ∙ q)) w

-- Whatever the stack reports, the sketch does and the sending task does, one after the other: the
-- port is marked as disconnected exactly when it has no client; while it is marked as connected,
-- or a second connection is being refused, it has one; the queues hold at most 512 bytes and 32
-- packets; and the buffer of 330 bytes is not overrun. Connections have handles other than 0.
pub Reach-IsValid : {stack : Stack} {s t : Port stack} → IsValid s → Reach s t → IsValid t
Reach-IsValid v here = v
Reach-IsValid v (next r st) = Step-IsValid (Reach-IsValid v r) st
