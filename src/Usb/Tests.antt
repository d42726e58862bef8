-- ===== src/Usb/Tests.antt =====
-- Runs of the USB buffer, and its theorems at concrete values.
use micropython_lib.Prelude.{
  ◌+◌, ◌<◌, ◌↔◌, ℕ, ◌≡◌, refl, arith, ok, raise, assertion_error, List, [], ◌∷◌, ◌++◌, take, drop,
  none,
}
use micropython_lib.Usb.Buffer.{
  Buffer, new, pend_write, finish_write, fill, write, pend_read, finish_read, readinto, move_back,
  copy_byte, shift,
}
use micropython_lib.Usb.Buffer.Queue.{
  IsValid, pending, Becomes, finish_write-Becomes, finish_read-Becomes, overrun_iff,
}
use micropython_lib.Usb.Buffer.Trace.{
  Trace, Reaches, fresh, pends, fills, commits, takes, start, next, Trace_in_order,
}

calls : Unit {0}
unfolding new pend_write finish_write fill write pend_read finish_read readinto move_back copy_byte
    shift
calls = tt

-- One byte waits, three bytes were pended behind two that were read meanwhile.
abbrev read_meanwhile : Buffer
read_meanwhile = record { b = 1 ∷ 2 ∷ 3 ∷ 7 ∷ 8 ∷ 0 ∷ []; n = 1; w = 3 }

read_meanwhile-IsValid : IsValid read_meanwhile
read_meanwhile-IsValid = record { data_end = omega arith; pending_start = omega arith }

slow_path :
    finish_write read_meanwhile 2 ≡ ok (record { b = 1 ∷ 7 ∷ 8 ∷ 7 ∷ 8 ∷ 0 ∷ []; n = 3; w = 6 })
unfolding calls
slow_path = refl

too_many : finish_write read_meanwhile 4 ≡ raise assertion_error
unfolding calls
too_many = refl

part_read :
    readinto (record { b = 1 ∷ 2 ∷ 3 ∷ []; n = 3; w = 3 }) 2
    ≡ ok (record { b = 3 ∷ 2 ∷ 3 ∷ []; n = 1; w = 3 }, 1 ∷ 2 ∷ [])
unfolding calls
part_read = refl

finish_write-Becomes_example :
    Becomes read_meanwhile
      (finish_write read_meanwhile 2)
      (pend_read read_meanwhile ++ take 2 (pending read_meanwhile))
      []
finish_write-Becomes_example =
    finish_write-Becomes read_meanwhile 2 read_meanwhile-IsValid (omega arith)

finish_read-Becomes_example :
    Becomes read_meanwhile
      (finish_read read_meanwhile 1)
      (drop 1 (pend_read read_meanwhile))
      (pending read_meanwhile)
finish_read-Becomes_example =
    finish_read-Becomes read_meanwhile 1 read_meanwhile-IsValid (omega arith)

overrun_iff_example :
    ((finish_write read_meanwhile 4 ≡ raise assertion_error)
      ↔ ((assertion_error ≡ assertion_error) × (6 < 3 + 4)))
    × ((finish_read read_meanwhile 4 ≡ raise assertion_error)
        ↔ ((assertion_error ≡ assertion_error) × (1 < 4)))
overrun_iff_example = overrun_iff read_meanwhile 4 assertion_error read_meanwhile-IsValid

abbrev at : List ℕ → ℕ → ℕ → List ℕ → List ℕ → List ℕ → Trace
at b n w filled sent received = record {
  buffer = record { b = b; n = n; w = w };
  filled = filled;
  sent = sent;
  received = received;
}

-- Two bytes are sent and a write is pended; one byte is taken before the second commit.
abbrev last : Trace
last = at (2 ∷ 9 ∷ 9 ∷ []) 2 3 [] (1 ∷ 2 ∷ 9 ∷ []) (1 ∷ [])

first_commit : Reaches (fresh 3) (at (1 ∷ 2 ∷ 0 ∷ []) 2 3 [] (1 ∷ 2 ∷ []) [])
unfolding calls pending
first_commit =
    next _ _ _
      (next _ _ _ (next _ _ _ (start (fresh 3)) (pends (new 3) [] [] [] none))
        (fills (record { b = 0 ∷ 0 ∷ 0 ∷ []; n = 0; w = 0 }) [] [] [] (1 ∷ 2 ∷ []) (omega arith)))
      (commits (record { b = 1 ∷ 2 ∷ 0 ∷ []; n = 0; w = 0 }) _ (1 ∷ 2 ∷ []) [] [] 2 (omega arith)
        refl)

run : Reaches (fresh 3) last
unfolding calls pending
run =
    next _ _ _
      (next _ _ _
        (next _ _ _
          (next _ _ _ first_commit (pends (record { b = 1 ∷ 2 ∷ 0 ∷ []; n = 2; w = 3 }) _ _ _ none))
          (fills (record { b = 1 ∷ 2 ∷ 0 ∷ []; n = 2; w = 2 }) [] _ _ (9 ∷ []) (omega arith)))
        (takes (record { b = 1 ∷ 2 ∷ 9 ∷ []; n = 2; w = 2 })
          (record { b = 2 ∷ 2 ∷ 9 ∷ []; n = 1; w = 2 }) _ _ _ 1 refl))
      (commits (record { b = 2 ∷ 2 ∷ 9 ∷ []; n = 1; w = 2 }) _ (9 ∷ []) _ _ 1 (omega arith) refl)

Trace_in_order_example : (1 ∷ []) ++ pend_read last.buffer ≡ 1 ∷ 2 ∷ 9 ∷ []
Trace_in_order_example = Trace_in_order 3 last run
