-- ===== src/Tests/Sockets.antt =====
-- The theorems on sockets, streams and times, applied to concrete ones.
use bluetooth_ots_rs.Base.{
  ℕ, ◌-◌, ◌≡◌, refl, arith, none, some, [], ◌∷◌, inr, length, ◌==◌, if◌then◌else◌,
}
use bluetooth_ots_rs.Base.Outcome.{ok}
use bluetooth_ots_rs.Client.Transport.Poll.{Poll, Fd, ReadBuf, poll_read}
use bluetooth_ots_rs.Client.Transport.Poll.Wakes.{Wakes, Ends, poll_read-Wakes}
use bluetooth_ots_rs.Core.DateTime.{DateTime}
use bluetooth_ots_rs.Core.DateTime.Display.{display, read, read-display}

-- A descriptor that is ready, and has data and room after so many blocked calls.
abbrev slow : Fd
slow = record {
  World = ℕ;
  IoError = ℕ;
  poll_read_ready = λ w. (Poll.ready (inr tt), w);
  poll_write_ready = λ w. (Poll.ready (inr tt), w);
  try_read = λ room w. if w == 0 then (some (inr (7 ∷ [])), 0) else (none, w - 1);
  try_send = λ bytes w. if w == 0 then (some (inr (length bytes)), 0) else (none, w - 1);
  shutdown_write = λ w. (inr tt, w);
}

abbrev buffer : ReadBuf
buffer = record { filled = 1 ∷ []; capacity = 4 }

poll_read-Wakes_example :
    poll_read slow 3 buffer 2
    ≡ (ok (Poll.ready (inr tt), record { filled = 1 ∷ 7 ∷ []; capacity = 4 }), 0)
poll_read-Wakes_example =
    poll_read-Wakes slow 2 3 buffer 2 0 0 (Poll.ready (inr (7 ∷ []))) (omega arith) (omega arith)
      (Wakes.woken 2 2 1 0 refl refl (Wakes.woken 1 1 0 0 refl refl (Wakes.none_yet 0)))
      (Ends.called (inr (7 ∷ [])) 0 0 0 refl refl) (omega arith)

abbrev noon : DateTime
noon = record { year = 2024; month = 2; day = 29; hour = 12; minute = 5; second = 0 }

read-display_example : read (display noon) ≡ some noon
read-display_example =
    read-display noon (omega arith, omega arith, omega arith, omega arith, omega arith, omega arith)
