-- ===== src/Ide/Polling.antt =====
-- `ide_polling` on a drive that follows the interface.
use binbows_dos.Common.{
  ℕ, zero, suc, ◌<◌, ◌≡◌, refl, ap, ◌∙◌, bit_and, Bool, true, false, some, ◌==◌, ne→==, eq→==,
  ==_iff, ==→ne, if◌then◌else◌, Bool-cases, inl, inr, arith,
}
use binbows_dos.Io.{Bus}
use binbows_dos.Ide.{Channel, reg_port, ide_read, ide_delay, busy_loop, check_state, ide_polling}
use binbows_dos.Ide.Ata.{View, Ata, drive_of}
use binbows_dos.Ide.Reg
use binbows_dos.Ide.Sr

abbrev pub ready : View → View
ready v = record v { busy = 0 }

-- The drive has become ready, and all else is as it was.
abbrev pub Ready : View → View → Type 0
Ready v v' = v' ≡ ready v

Ready-now : (v : View) → v.busy ≡ 0 → Ready v v
Ready-now v e = ap (λ b. record v { busy = b }) e

-- What `ide_polling` returns once the drive is ready.
abbrev pub poll_result : Bool → View → ℕ
poll_result check v =
    if check
    then (if v.err (drive_of v)
        then 2
        else if v.df (drive_of v)
        then 1
        else if v.left == 0
        then 3
        else 0)
    else 0

-- The tests of `ide_polling` on the status of a ready drive.
check_state_lem :
    (state left : ℕ) (err df : Bool)
    → bit_and state Sr.err ≡ (if err then Sr.err else 0)
    → bit_and state Sr.df ≡ (if df then Sr.df else 0)
    → bit_and state Sr.drq ≡ (if left == 0 then 0 else Sr.drq)
    → check_state state ≡ (if err then 2 else if df then 1 else if left == 0 then 3 else 0)
unfolding check_state
check_state_lem state left true df e f g = ground arith
check_state_lem state left false true e f g = ground arith
check_state_lem state left false false e f g = ground arith

module _ (bus : Bus) (ch : Channel) (latency : ℕ) (ata : Ata bus ch latency) where
  pub ide_delay_lem : (d : bus.Device) → ata.view (ide_delay bus ch d) ≡ ata.view d
  unfolding ide_delay ide_read
  ide_delay_lem d = ata.altstatus _ ∙ ata.altstatus _ ∙ ata.altstatus _ ∙ ata.altstatus d

  -- Enough fuel for the reads that find the drive busy ends the loop.
  busy_loop-Ready :
      (fuel : ℕ) (d : bus.Device)
      → (ata.view d).busy < fuel
      → (d' : bus.Device) × (busy_loop bus fuel ch d ≡ some d') × Ready (ata.view d) (ata.view d')
  unfolding busy_loop ide_read
  busy_loop-Ready zero d h = absurd (omega arith)
  busy_loop-Ready (suc fuel) d h = elim (Bool-cases ((ata.view d).busy == 0)) [
    | inl e ↦
        let (idle, _, _, _, same) = ata.ready_status d ((==_iff _ 0).0 e) in
        let after = Ready-now (ata.view d) ((==_iff _ 0).0 e) in
        ((bus.read (reg_port ch Reg.status) d).1, rw (eq→== _ 0 idle) refl, same ∙ after)
    | inr e ↦
        let (bsy, less) = ata.busy_status d (omega (arith, ==→ne (ata.view d).busy 0 e)) in
        let d1 = (bus.read (reg_port ch Reg.status) d).1 in
        let (d', done, after) =
          busy_loop-Ready fuel d1
            (omega (arith, ap (λ v. v.busy) less, ==→ne (ata.view d).busy 0 e)) in
        (d', rw (ne→== _ 0 bsy) done, after ∙ ap ready less)
  ]

  -- With fuel for the reads that find the drive busy, `ide_polling` returns, the drive is then ready
  -- and all else is as it was. The result is 0 if it does not check; if it checks, it is 2 for an
  -- error, else 1 for a fault, else 3 if no data are waiting, else 0.
  pub ide_polling-Ready :
      (fuel : ℕ) (check : Bool) (d : bus.Device)
      → (ata.view d).busy < fuel
      → (d' : bus.Device) × (ide_polling bus fuel ch check d
          ≡ some (poll_result check (ata.view d), d'))
        × Ready (ata.view d) (ata.view d')
  unfolding ide_polling ide_read
  ide_polling-Ready fuel check d h =
      let same = ide_delay_lem d in
      let (d1, done, after) =
        busy_loop-Ready fuel (ide_delay bus ch d) (omega (arith, ap (λ v. v.busy) same)) in
      let settled = after ∙ ap ready same in finish check d1 done settled
    where
      finish :
          (b : Bool) (d1 : bus.Device)
          → busy_loop bus fuel ch (ide_delay bus ch d) ≡ some d1
          → Ready (ata.view d) (ata.view d1)
          → (d' : bus.Device) × (ide_polling bus fuel ch b d
              ≡ some (poll_result b (ata.view d), d'))
            × Ready (ata.view d) (ata.view d')
      finish false d1 done settled = (d1, rw done refl, settled)
      finish true d1 done settled =
          let (idle, e, f, g, same) = ata.ready_status d1 (ap (λ v. v.busy) settled) in
          let v1 = ata.view d1 in
          let code =
            check_state_lem _ v1.left (v1.err (drive_of v1)) (v1.df (drive_of v1)) e f g
            ∙ ap (poll_result true) settled in
          (
            (ide_read bus ch Reg.status d1).1,
            rw done (ap (λ c. some (c, (ide_read bus ch Reg.status d1).1)) code),
            same ∙ settled,
          )
