-- ===== src/BtSerial/Sending.antt =====
-- Writing to the serial port: `BluetoothSerial::write` and `_spp_queue_packet` put a packet into the
-- queue, and the task `_spp_tx_task` sends it with `_spp_send_buffer`.
use jedge.Base.{
  ℕ, zero, suc, ◌+◌, ◌%◌, ◌^◌, ◌==◌, ltb, leb, if◌then◌else◌, sub_size, Bool, true, false, not,
  ◌||◌, List, [], ◌∷◌, ◌++◌, length, take, drop, memcpy, Option, none, some, ◌>>=◌, ℤ, pos, negsuc,
}
use jedge.BtSerial.Stack.{Act, Stack, Port, tx_queue_size, spp_tx_max}
use jedge.BtSerial.Events.{spp_cb}

-- `xQueueSend` on the queue of packets, when its wait is over
abbrev pub queue_send : List ℕ → Option (List (List ℕ)) → Option (List (List ℕ))
queue_send packet none = none
queue_send packet (some q) = if ltb (length q) tx_queue_size then some (q ++ packet ∷ []) else none

module _ {stack : Stack} where
  open stack use {spp_write}

  abbrev pub queued : Option (List (List ℕ)) → Port stack → Bool × Port stack
  queued none s = (false, s)
  queued (some q) s = (true, record s { tx_queue = some q })

  -- `_spp_queue_packet`, `true` for `ESP_OK`; `allocated` says whether `malloc` succeeds
  unfoldable pub spp_queue_packet : List ℕ → Bool → Port stack → Bool × Port stack
  spp_queue_packet bytes_out allocated s =
      if length bytes_out == 0
      then (true, s)
      else if not allocated
      then (false, s)
      else queued (queue_send bytes_out s.tx_queue) s

  -- `write(buffer, size)`
  unfoldable pub write : List ℕ → Bool → Port stack → ℕ × Port stack
  write buffer allocated s =
      let (queued, s') = spp_queue_packet buffer allocated s in
      if s.client == 0 then (0, s) else if queued then (length buffer, s') else (0, s')

  -- `read()`, from the queue: -1 for an empty queue or none
  abbrev pub read_from : Option (List ℕ) → Port stack → ℤ × Port stack
  read_from (some (b ∷ rx)) s = (pos b, record s { rx_queue = some rx })
  read_from (some []) s = (negsuc 0, s)
  read_from none s = (negsuc 0, s)

  abbrev pub read : Port stack → ℤ × Port stack
  read s = read_from s.rx_queue s

  unfoldable pub act : Act → Port stack → Port stack
  act (Act.event e) s = spp_cb e s
  act (Act.call_write buffer allocated) s = (write buffer allocated s).1
  act Act.call_read s = (read s).1

  unfoldable pub run_acts : List Act → Port stack → Port stack
  run_acts [] s = s
  run_acts (a ∷ acts) s = run_acts acts (act a s)

  -- a wait of this task: the other tasks run
  unfoldable pub wait_for : List (List Act) → Port stack → Port stack
  wait_for [] s = s
  wait_for (acts ∷ later) s = run_acts acts (record s { schedule = later })

  abbrev pub wait : Port stack → Port stack
  wait s = wait_for s.schedule s

  -- the end of `_spp_send_buffer`: `xSemaphoreTake(_spp_tx_done, ..)`
  unfoldable pub take_done : Port stack → Bool × Port stack
  take_done s =
      let s' = wait s in if s'.tx_done then (true, record s' { tx_done = false }) else (false, s')

  -- `_spp_send_buffer` from `esp_spp_write` on
  unfoldable pub write_buffer : Port stack → Bool × Port stack
  write_buffer s =
      let (err, d) = spp_write s.client (take s.tx_buffer_len s.tx_buffer) s.dev in
      if not (err == 0)
      then (false, record s { dev = d })
      else take_done (record s { dev = d; tx_buffer_len = 0 })

  -- `_spp_send_buffer`
  unfoldable pub spp_send_buffer : Port stack → Bool × Port stack
  spp_send_buffer s =
      let s1 = wait s in
      if not s1.congested
      then (false, s1)
      else if s1.client == 0
      then (false, s1)
      else write_buffer s1

  -- `uxQueueMessagesWaiting(_spp_tx_queue) == 0`
  abbrev pub no_packets : Port stack → Bool
  no_packets s = elim s.tx_queue [ some (_ ∷ _) ↦ false | _ ↦ true ]

  -- `memcpy` to the place `off` of the buffer, whose new length is given
  abbrev pub put : ℕ → List ℕ → ℕ → Port stack → Port stack
  put off piece len s = record s { tx_buffer = memcpy s.tx_buffer off piece; tx_buffer_len = len }

  -- a packet that fits in the buffer
  unfoldable pub tx_small : List ℕ → Port stack → Port stack
  tx_small packet s =
      let s1 = put s.tx_buffer_len packet ((s.tx_buffer_len + length packet) % 2 ^ 16) s in
      if (s1.tx_buffer_len == spp_tx_max) || no_packets s1 then (spp_send_buffer s1).1 else s1

  -- the `while` of the task over the bytes that are left, on fuel: the bytes left after it
  unfoldable pub tx_loop : ℕ → List ℕ → Port stack → Option (List ℕ × Port stack)
  tx_loop zero left s = none
  tx_loop (suc fuel) left s =
      let (sent, s') = spp_send_buffer (put 0 (take spp_tx_max left) spp_tx_max s) in
      let rest = tx_loop fuel (drop spp_tx_max left) s' in
      if ltb (length left) spp_tx_max then some (left, s) else if sent then rest else some ([], s')

  -- `if(len)` after the loop
  unfoldable pub tx_rest : List ℕ → Port stack → Port stack
  tx_rest [] s = s
  tx_rest (b ∷ left) s =
      let s1 = put 0 (b ∷ left) ((s.tx_buffer_len + length (b ∷ left)) % 2 ^ 16) s in
      if no_packets s1 then (spp_send_buffer s1).1 else s1

  -- a packet that does not fit
  unfoldable pub tx_large : List ℕ → Port stack → Option (Port stack)
  tx_large packet s =
      let to_send = sub_size spp_tx_max s.tx_buffer_len in
      let (sent, s1) = spp_send_buffer (put s.tx_buffer_len (take to_send packet) spp_tx_max s) in
      let left = if sent then drop to_send packet else [] in
      tx_loop (suc (length left)) left s1 >>= λ r. some (tx_rest r.0 r.1)

  -- a round of `_spp_tx_task`; without a packet in the queue the task waits
  unfoldable pub tx_packet : Option (List (List ℕ)) → Port stack → Option (Port stack)
  tx_packet (some (packet ∷ q)) s =
      let s1 : Port stack = record s { tx_queue = some q } in
      if leb (length packet) (sub_size spp_tx_max s.tx_buffer_len)
      then some (tx_small packet s1)
      else tx_large packet s1
  tx_packet _ s = some s

  abbrev pub tx_round : Port stack → Option (Port stack)
  tx_round s = tx_packet s.tx_queue s
