-- ===== src/GdbStub/Target.antt =====
-- `Target` of src/gdbstub/src/main.rs: the traced process behind the kernel's `proc:` scheme, its
-- breakpoints and the stop events.
pub mod Breakpoints
use nix_redox.Base.{
  ℕ, ◌-◌, ◌^◌, ◌%◌, Bool, true, false, not, ◌&&◌, ltb, Option, none, some, List, [], ◌∷◌, Result,
  ok, err, if◌then◌else◌, Text,
}
use nix_redox.Base.Strings.{nat_key}
use nix_redox.Base.BTreeMap
use nix_redox.Base.BTreeMap.{BTreeMap}
use nix_redox.GdbStub.Hex.{hex_byte}
use nix_redox.GdbStub.Registers.{IntRegisters}

pub data StopFlag : Type 0 where
  pre_syscall post_syscall single_step_stop signal breakpoint exit : StopFlag

pub record PtraceEvent : Type 0 where
  pub cause : StopFlag → Bool
  pub a : ℕ

-- The kernel's files of a process: what the system calls answer, and the process after them.
pub record Proc (P : Type 0) : Type 0 where
  pub read_regs : P → Option IntRegisters
  pub write_regs : P → IntRegisters → Bool × P
  pub seek : P → ℕ → Bool
  pub read_exact : P → ℕ → ℕ → Option (List ℕ)
  pub write_all : P → ℕ → List ℕ → Bool × P
  pub write_trace : P → (StopFlag → Bool) → Bool × P
  -- none if the read fails, and no event at the end of the file
  pub read_event : P → Option (Option PtraceEvent) × P
  pub kill : P → P

pub record Target (P : Type 0) : Type 0 where
  pub pid : ℕ
  pub process : P
  pub breakpoints : BTreeMap ℕ ℕ
  pub exited : Bool

pub data IoError : Type 0 where
  failed : IoError
  -- the allocation of the buffer panics
  capacity_overflow : IoError

pub data StopReason : Type 0 where
  signal_stop exited_with : ℕ → StopReason

unfoldable pub to_rsp : StopReason → Text
unfolding hex_byte
to_rsp (signal_stop sig) = 83 ∷ hex_byte sig
to_rsp (exited_with code) = 87 ∷ hex_byte code

abbrev done : Bool → Result IoError (Unit {0})
done true = ok tt
done false = err failed

module _ {P : Type 0} (proc : Proc P) where
  unfoldable pub read_memory : Target P → ℕ → ℕ → Result IoError (List ℕ)
  read_memory t addr len =
      if proc.seek t.process addr
      then if ltb len (2 ^ 63)
        then elim (proc.read_exact t.process addr len) [ none ↦ err failed | some buf ↦ ok buf ]
        else err capacity_overflow
      else err failed

  unfoldable pub write_memory : Target P → ℕ → List ℕ → Result IoError (Unit {0}) × Target P
  write_memory t addr raw =
      if proc.seek t.process addr
      then (let (written, process) = proc.write_all t.process addr raw in
          (done written, record t { process = process }))
      else (err failed, t)

  abbrev note_breakpoint :
      ℕ → ℕ → Result IoError (Unit {0}) × Target P → Result IoError (Unit {0}) × Target P
  note_breakpoint addr orig (ok u, t) =
      (ok u, record t { breakpoints = BTreeMap.insert addr orig t.breakpoints })
  note_breakpoint addr orig (err e, t) = (err e, t)

  -- The byte there is kept, and `int3` is written over it.
  abbrev patch : Target P → ℕ → Option (List ℕ) → Result IoError (Unit {0}) × Target P
  patch t addr none = (err failed, t)
  patch t addr (some []) = (err failed, t)
  patch t addr (some (orig ∷ more)) = note_breakpoint addr orig (write_memory t addr (204 ∷ []))

  unfoldable pub insert_breakpoint : Target P → ℕ → Result IoError (Unit {0}) × Target P
  unfolding write_memory
  insert_breakpoint t addr =
      if BTreeMap.contains_key addr t.breakpoints
      then (ok tt, t)
      else if proc.seek t.process addr
      then patch t addr (proc.read_exact t.process addr 1)
      else (err failed, t)

  unfoldable pub remove_breakpoint : Target P → ℕ → Result IoError (Unit {0}) × Target P
  unfolding write_memory
  remove_breakpoint t addr = elim (BTreeMap.get addr t.breakpoints) [
    | none ↦ (ok tt, t)
    | some orig ↦
        write_memory (record t { breakpoints = BTreeMap.remove addr t.breakpoints }) addr
          (orig ∷ [])
  ]

  -- `int3` leaves the program counter behind the breakpoint: it is put back, if that can be done.
  abbrev rewind : Target P → Option IntRegisters → Target P
  rewind t none = t
  rewind t (some regs) =
      if ltb 0 regs.rip && BTreeMap.contains_key (regs.rip - 1) t.breakpoints
      then record t { process = (proc.write_regs t.process (record regs { rip = regs.rip - 1 })).1 }
      else t

  abbrev on_event : Target P → Option (Option PtraceEvent) → Result IoError StopReason × Target P
  on_event t none = (err failed, t)
  on_event t (some none) = (ok (exited_with 0), record t { exited = true })
  on_event t (some (some event)) =
      if event.cause breakpoint
      then (ok (signal_stop 5), rewind t (proc.read_regs t.process))
      else if event.cause single_step_stop
      then (ok (signal_stop 5), t)
      else if event.cause exit
      then (ok (exited_with (event.a % 256)), record t { exited = true })
      else if event.cause signal
      then (ok (signal_stop (event.a % 256)), t)
      else (ok (signal_stop 5), t)

  unfoldable pub wait_for_event : Target P → Result IoError StopReason × Target P
  wait_for_event t =
      let (answer, process) = proc.read_event t.process in
      on_event (record t { process = process }) answer

  abbrev resume : (StopFlag → Bool) → Target P → Result IoError StopReason × Target P
  unfolding wait_for_event
  resume flags t =
      let (written, process) = proc.write_trace t.process flags in
      if written
      then wait_for_event (record t { process = process })
      else (err failed, record t { process = process })

  abbrev every_stop : StopFlag → Bool
  every_stop flag = true

  abbrev step_stop : StopFlag → Bool
  step_stop single_step_stop = true
  step_stop flag = false

  unfoldable pub continue_exec : Target P → Result IoError StopReason × Target P
  unfolding wait_for_event
  continue_exec t = resume every_stop t

  unfoldable pub single_step : Target P → Result IoError StopReason × Target P
  unfolding wait_for_event
  single_step t = resume step_stop t
