-- ===== src/Ide/Probe/Secondary.antt =====
-- The entries of the secondary channel's drives.
use binbows_dos.Common.{
  ℕ, zero, suc, ◌+◌, ◌/◌, ◌%◌, ◌≤◌, ◌≡◌, ◌≢◌, refl, ap, ◌∙◌, sym, Bool, true, false, some, ltb, leb,
  le→ltb, ◌&&◌, ◌⊎◌, ◌==◌, if◌then◌else◌, ne→==, arith, Bool-cases, inl, inr,
}
use binbows_dos.Memory.{Memory}
use binbows_dos.Common.Ensures.{
  Ensures, Ensures-weaken, Ensures-pure, Ensures-then, Ensures-bind, Ensures-if, Ensures-some,
}
use binbows_dos.Io.{Bus}
use binbows_dos.Ide.{IdeDevice, ide_read_sectors, ide_write_sectors_counted}
use binbows_dos.Ide.Probe.{
  Driver, take_identity, ide_identify, ide_device_exists, clear_entry, probe_drive, probe_loop,
  set_channels, ide_initialize,
}

module _ (bus : Bus) where
  take_identity_other :
      (channel drive j : ℕ) (s : Driver bus)
      → j ≢ drive
      → (take_identity bus channel drive s).devices j ≡ s.devices j
  unfolding take_identity
  take_identity_other channel drive j s h = rw (ne→== drive j (λ e. h (sym e))) refl

  abbrev SameEntry : ℕ → Driver bus → Driver bus → Type 0
  SameEntry j s s' = s'.devices j ≡ s.devices j

  ide_identify_other :
      (fuel channel drive j : ℕ) (s : Driver bus)
      → j ≢ drive
      → Ensures (SameEntry j s) (ide_identify bus fuel channel drive s)
  unfolding ide_identify
  ide_identify_other fuel channel drive j s h =
      Ensures-if (SameEntry j s) _ _ _ (Ensures-pure (SameEntry j s) _ refl) (
        Ensures-bind (SameEntry j s) _ _
          λ (waiting, d1). Ensures-pure (SameEntry j s) _ (taken waiting d1))
    where
      taken :
          (b : Bool) (d1 : bus.Device)
          → SameEntry j s (
              if b
              then take_identity bus channel drive (record s { device = d1 })
              else record s { device = d1 })
      taken true d1 = take_identity_other channel drive j (record s { device = d1 }) h
      taken false d1 = refl

  -- No drive is entered for the secondary channel: entry `j` of the two is cleared at round `j`.
  abbrev Entry : ℕ → ℕ → Driver bus → Driver bus → Type 0
  Entry i j s s' = (s'.devices j).reserved ≡ (if i == j then 0 else (s.devices j).reserved)

  clear_entry-Entry :
      (i j : ℕ) (s : Driver bus)
      → ((clear_entry bus i s).devices j).reserved ≡ (if i == j then 0 else (s.devices j).reserved)
  unfolding clear_entry
  clear_entry-Entry i j s = elim (Bool-cases (i == j)) [ inl e ↦ rw e refl | inr e ↦ rw e refl ]

  probe_drive-Entry :
      (fuel i j : ℕ) (s : Driver bus) → 2 ≤ j → Ensures (Entry i j s) (probe_drive bus fuel i s)
  unfolding probe_drive
  probe_drive-Entry fuel i j s h =
      Ensures-bind (Entry i j s) (ide_device_exists bus fuel s.channels (i / 2) (i % 2) s.device) _
        λ (device_type, d).
          let s1 : Driver bus = record (clear_entry bus i s) { device = d } in
          Ensures-if (Entry i j s) (device_type == 1) _ _
            (Ensures-weaken (SameEntry j s1) (Entry i j s) _
              (λ s' e. ap (λ (x : IdeDevice). x.reserved) e ∙ clear_entry-Entry i j s)
              (ide_identify_other fuel (i / 2) (i % 2) j s1 (λ e. omega arith)))
            (Ensures-pure (Entry i j s) s1 (clear_entry-Entry i j s))

  -- Rounds from `i` on clear the entries that they pass, and enter no drive in the others of the
  -- secondary channel.
  abbrev Cleared : ℕ → ℕ → ℕ → Driver bus → Driver bus → Type 0
  Cleared i left j s s' =
      (s'.devices j).reserved ≡ (if leb i j && ltb j (i + left) then 0 else (s.devices j).reserved)

  probe_loop-Cleared :
      (fuel left i j : ℕ) (s : Driver bus)
      → 2 ≤ j
      → Ensures (Cleared i left j s) (probe_loop bus fuel left i s)
  unfolding probe_loop
  probe_loop-Cleared fuel zero i j s h = Ensures-pure (Cleared i 0 j s) s (ground arith)
  probe_loop-Cleared fuel (suc left) i j s h =
      Ensures-then (Entry i j s) (Cleared i (suc left) j s) (probe_drive bus fuel i s) _
        (probe_drive-Entry fuel i j s h)
        (λ s1 e.
          Ensures-weaken (Cleared (i + 1) left j s1) (Cleared i (suc left) j s) _
            (λ s' f. ground arith) (probe_loop-Cleared fuel left (i + 1) j s1 h))

  entry-zero :
      (j x y : ℕ) → (j ≡ 2) ⊎ (j ≡ 3) → x ≡ (if leb 0 j && ltb j (0 + 4) then 0 else y) → x ≡ 0
  entry-zero j x y which e = ground arith

  -- After `ide_initialize`, on any bus, drives 2 and 3, which are those of the secondary channel, are
  -- not entered: reads and writes of sectors on them return 1 and leave memory and devices alone.
  pub ide_initialize_secondary :
      (fuel : ℕ) (s s' : Driver bus) (j : ℕ)
      → ide_initialize bus fuel s ≡ some s'
      → (j ≡ 2) ⊎ (j ≡ 3)
      → ((fuel' numsects lba buf : ℕ) (m : Memory) (d : bus.Device)
          → ide_read_sectors bus fuel' s'.channels s'.devices j numsects lba buf m d
            ≡ some (1, m, d))
        × ((rounds fuel' lba count buf : ℕ) (m : Memory) (d : bus.Device)
            → ide_write_sectors_counted bus rounds fuel' s'.channels s'.devices j lba count buf m d
              ≡ some (1, d))
  unfolding ide_initialize ide_read_sectors ide_write_sectors_counted
  ide_initialize_secondary fuel s s' j e which =
      let gone : (s'.devices j).reserved ≡ 0 = entry-zero j (s'.devices j).reserved _ which (
        Ensures-some (Cleared 0 4 j (set_channels bus s)) _ s' e
          (probe_loop-Cleared fuel 4 0 j (set_channels bus s) (omega arith))) in
      (
        λ fuel' numsects lba buf m d. rw (gone, le→ltb 3 j (omega arith)) refl,
        λ rounds fuel' lba count buf m d. rw (gone, le→ltb 3 j (omega arith)) refl,
      )
