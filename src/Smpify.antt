-- ===== src/Smpify.antt =====
-- policy/xml/smp/smpify.py: a policy with one Linux subject, turned into one with several cores. The
-- functions get the section that they change; `cores` is the number of additional cores. The
-- subjects' own files, which contain Python code that the script runs, are not modelled.

pub mod Devices
pub mod References
pub mod Schedule
pub mod Numbers
use muen.Base.{ℕ, zero, suc, ◌+◌, ◌/◌, ◌%◌, List, [], ◌∷◌, ◌++◌, Str, codes, eqb, true, false}
use muen.Base.Text.{rjust}
use muen.Base.Decimal.{decimal}
use muen.Xml.{Etree, sub_element}

-- `str(i).zfill(2)`
abbrev pub zfill_2 : Str → Str
zfill_2 s = rjust 2 b'0' s

abbrev pub dbgchannel_end : ℕ
dbgchannel_end = 4

-- `range(start, start + n)`
abbrev pub range : ℕ → ℕ → List ℕ
range start zero = []
range start (suc n) = start ∷ range (suc start) n

module _ {ℓ κ} {A : Type ℓ} {S : Type κ} where
  -- A `for` loop whose body updates a state.
  abbrev pub loop : (A → S → S) → List A → S → S
  loop f [] s = s
  loop f (x ∷ xs) s = loop f xs (f x s)

module _ (X : Etree) where
  abbrev region : Str → Str → X.Elem
  region name pattern =
      X.append
        (X.append
          (X.element (codes "memory") (
            (codes "name", name)
            ∷ (codes "size", codes "16#1000#")
            ∷ (codes "caching", codes "WB")
            ∷ []))
          (X.element (codes "fill") ((codes "pattern", pattern) ∷ [])))
        (X.element (codes "hash") ((codes "value", codes "none") ∷ []))

  unfoldable pub create_phys_memory : ℕ → X.Elem → X.Elem
  create_phys_memory cores mem =
      loop
        (λ i m.
          X.append (X.append m (region (codes "control_sm_" ++ decimal i) (codes "16#ff#")))
            (region (codes "status_sm_" ++ decimal i) (codes "16#00#")))
        (range 1 cores) mem

  abbrev pub event : Str → Str → X.Elem
  event mode name = X.element (codes "event") ((codes "mode", mode) ∷ (codes "name", name) ∷ [])

  -- The events of one core.
  abbrev pub add_events : ℕ → X.Elem → X.Elem
  add_events i e =
      let e₁ = X.append e (event (codes "switch") (codes "trap_to_sm_" ++ decimal i)) in
      let e₂ = X.append e₁ (event (codes "switch") (codes "resume_linux_" ++ decimal i)) in
      let e₃ = X.append e₂ (event (codes "async") (codes "serial_irq4_linux_" ++ decimal i)) in
      let e₄ = X.append e₃ (event (codes "self") (codes "timer_linux_" ++ decimal i)) in
      X.append e₄ (event (codes "asap") (codes "linux_smp_signal_sm_" ++ zfill_2 (decimal i)))

  unfoldable pub create_phys_events : ℕ → X.Elem → X.Elem
  create_phys_events cores events = loop add_events (range 1 cores) events

  abbrev pub phys_channel : ℕ → X.Elem
  phys_channel i = X.element (codes "channel") (
      (codes "name", codes "debuglog_subject" ++ decimal (dbgchannel_end + i))
      ∷ (codes "size", codes "$logchannel_size")
      ∷ [])

  unfoldable pub create_phys_channels : ℕ → X.Elem → X.Elem
  create_phys_channels cores channels =
      loop (λ i e. X.append e (phys_channel i)) (range 1 cores) channels

  abbrev pub signal : ℕ → X.Elem
  signal i = X.element (codes "event") (
      (codes "id", decimal (2 + i))
      ∷ (codes "logical", codes "smp_signal_sm_" ++ zfill_2 (decimal i))
      ∷ (codes "physical", codes "linux_smp_signal_sm_" ++ zfill_2 (decimal i))
      ∷ [])

  -- The group `vmcall` of the Linux subject.
  unfoldable pub create_lnx_resources : ℕ → X.Elem → X.Elem
  create_lnx_resources cores vmcall = loop (λ i e. X.append e (signal i)) (range 1 cores) vmcall

  abbrev pub log_channel : ℕ → X.Elem
  log_channel i = X.element (codes "map") (
      (codes "logical", codes "log_channel" ++ decimal (2 + i))
      ∷ (codes "physical", codes "debuglog_subject" ++ decimal (dbgchannel_end + i))
      ∷ [])

  -- The component of the debug server.
  unfoldable pub create_dbg_resources : ℕ → X.Elem → X.Elem
  create_dbg_resources cores comp = loop (λ i e. X.append e (log_channel i)) (range 1 cores) comp

  abbrev pub member : Str → X.Elem
  member name = X.element (codes "subject") ((codes "name", name) ∷ [])

  abbrev pub partition : ℕ → X.Elem
  partition i =
      let group =
        X.append
          (X.append (X.element (codes "group") []) (member (codes "linux_core" ++ decimal i)))
          (member (codes "sm_core" ++ decimal i)) in
      X.append
        (X.element (codes "partition") ((codes "name", codes "linux_core" ++ decimal i) ∷ [])) group

  unfoldable pub create_scheduling_partitions : ℕ → X.Elem → X.Elem
  create_scheduling_partitions cores partitions =
      loop (λ i e. X.insert e i (partition i)) (range 1 cores) partitions
