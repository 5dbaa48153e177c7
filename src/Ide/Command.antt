-- ===== src/Ide/Command.antt =====
-- What a command that the driver sends starts on a drive that follows the interface.
use binbows_dos.Common.{
  ℕ, suc, ◌+◌, ◌-◌, ◌*◌, ◌/◌, ◌%◌, ◌^◌, ◌<◌, ◌≤◌, ◌≡◌, ◌≢◌, refl, sym, ap, ◌∙◌, true, false, eq→==,
  bit_and, bit_or, Bool, ◌==◌, if◌then◌else◌, arith,
}
use binbows_dos.Common.Bits.{bit_and_mask, bit_or_fields}
use binbows_dos.Io.{Bus}
use binbows_dos.Ide.{Channel, reg_port, ide_write, send_command}
use binbows_dos.Ide.Ata.{View, Ata, Idle, start, advance, drive_of, lba_of, count_of, set_at}
use binbows_dos.Ide.Reg
use binbows_dos.Ide.Cmd

-- A transfer of drive `unit`, which is selected, stands at word `pos` with `left` words to go, the
-- drives hold `words`, there is no error, and the drive is ready within `latency` reads, and at once
-- when nothing is left.
pub record At (words : ℕ → ℕ → ℕ) (unit pos left : ℕ) (writing : Bool) (latency : ℕ) (v : View)
    : Type 0 where
  pub same_words : v.words ≡ words
  pub same_unit : v.unit ≡ unit
  pub same_pos : v.pos ≡ pos
  pub same_left : v.left ≡ left
  pub same_writing : v.writing ≡ writing
  pub soon : v.busy ≤ latency
  pub over : left ≡ 0 → v.busy ≡ 0
  pub chosen : drive_of v ≡ unit
  pub no_err : v.err unit ≡ false
  pub no_df : v.df unit ≡ false

pub At-cast :
    {words : ℕ → ℕ → ℕ} {unit pos pos' left left' : ℕ} {writing : Bool} {latency : ℕ} {v : View}
    → pos ≡ pos'
    → left ≡ left'
    → At words unit pos left writing latency v
    → At words unit pos' left' writing latency v
At-cast e f at = record {
  same_words = at.same_words;
  same_unit = at.same_unit;
  same_pos = at.same_pos ∙ e;
  same_left = at.same_left ∙ f;
  same_writing = at.same_writing;
  soon = at.soon;
  over = λ z. at.over (f ∙ z);
  chosen = at.chosen;
  no_err = at.no_err;
  no_df = at.no_df;
}

-- One word goes over; within a sector the drive stays ready.
pub At-advance :
    {words : ℕ → ℕ → ℕ} {unit pos left : ℕ} {writing : Bool} {latency : ℕ} {v v' : View} (busy : ℕ)
    → busy ≤ latency
    → (writing ≡ true → left ≡ 0 → busy ≡ 0)
    → v' ≡ advance busy v
    → At words unit pos (suc left) writing latency v
    → At words unit (pos + 1) left writing latency v' × (left % 256 ≢ 0 → v'.busy ≡ 0)
At-advance {unit} {left} {writing} {v} {v'} busy le prompt e at =
    let less : v.left - 1 ≡ left = omega (arith, at.same_left) in
    (
      record {
        same_words = ap (λ (w : View). w.words) e ∙ at.same_words;
        same_unit = ap (λ (w : View). w.unit) e ∙ at.same_unit;
        same_pos = omega (arith, ap (λ (w : View). w.pos) e, at.same_pos);
        same_left = ap (λ (w : View). w.left) e ∙ less;
        same_writing = ap (λ (w : View). w.writing) e ∙ at.same_writing;
        soon = ground (arith, ap (λ (w : View). w.busy) e);
        over = λ z.
            ap (λ (w : View). w.busy) e
            ∙ rw (less, z, at.same_writing) (last_busy writing (λ w. prompt w z));
        chosen = ap drive_of e ∙ at.chosen;
        no_err = ap (λ (w : View). w.err unit) e ∙ at.no_err;
        no_df = ap (λ (w : View). w.df unit) e ∙ at.no_df;
      },
      λ more. ground (arith, ap (λ (w : View). w.busy) e),
    )
  where
    last_busy : (b : Bool) → (b ≡ true → busy ≡ 0) → (if b then busy else 0) ≡ 0
    last_busy true h = h refl
    last_busy false h = refl

-- The byte that selects a drive holds its number and the highest bits of the address.
select_byte :
    (slavebit head : ℕ)
    → slavebit < 2
    → head < 16
    → bit_or (bit_or 0xe0 (slavebit * 2 ^ 4)) head ≡ 0xe0 + slavebit * 16 + head
select_byte slavebit head s h =
    let e : bit_or 0xe0 (slavebit * 2 ^ 4) ≡ (14 + slavebit) * 2 ^ 4 =
      bit_or_fields 5 7 (slavebit * 2 ^ 4) (omega arith) ∙ omega arith in
    rw e (bit_or_fields 4 (14 + slavebit) head h ∙ omega arith)

-- The registers hold the command's address and count, and nothing else has changed.
pub record Addressed (v v' : View) (unit count lba : ℕ) : Type 0 where
  pub addressed_words : v'.words ≡ v.words
  pub addressed_dirty : v'.dirty ≡ v.dirty
  pub addressed_idle : Idle v'
  pub addressed_unit : drive_of v' ≡ unit
  pub addressed_lba : lba_of v' ≡ lba
  pub addressed_count : count_of v' ≡ (if count == 0 then 256 else count)

pub set_at_same : (u i : ℕ) (b : Bool) (f : ℕ → Bool) → i ≡ u → set_at u b f i ≡ b
set_at_same u i b f e = rw (eq→== i u e) refl

module _ (bus : Bus) (ch : Channel) (latency : ℕ) (ata : Ata bus ch latency) where
  -- On an idle channel all registers take their values before the command is written.
  pub send_command-Addressed :
      (command slavebit count lba : ℕ) (d : bus.Device)
      → slavebit < 2
      → count < 256
      → lba < 2 ^ 28
      → Idle (ata.view d)
      → (d5 : bus.Device) × (send_command bus ch slavebit
            (bit_and (lba / 2 ^ 24) 0x0f)
            count
            lba
            command
            d
          ≡ bus.write (reg_port ch Reg.command) (command % 256) d5)
        × Addressed (ata.view d) (ata.view d5) slavebit count lba
  unfolding send_command ide_write
  send_command-Addressed command slavebit count lba d s c l idle =
      let head : ℕ = bit_and (lba / 2 ^ 24) 0x0f in
      let sel : ℕ = bit_or (bit_or 0xe0 (slavebit * 2 ^ 4)) head % 256 in
      let d1 : bus.Device = bus.write (reg_port ch Reg.hddevsel) sel d in
      let d2 : bus.Device = bus.write (reg_port ch Reg.seccount0) (count % 256) d1 in
      let d3 : bus.Device = bus.write (reg_port ch Reg.lba0) (bit_and lba 0xff % 256) d2 in
      let d4 : bus.Device =
        bus.write (reg_port ch Reg.lba1) (bit_and (lba / 2 ^ 8) 0xff % 256) d3 in
      let d5 : bus.Device =
        bus.write (reg_port ch Reg.lba2) (bit_and (lba / 2 ^ 16) 0xff % 256) d4 in
      let v5 : View = record (ata.view d) {
        selected = sel;
        count = count % 256;
        lba0 = bit_and lba 0xff % 256;
        lba1 = bit_and (lba / 2 ^ 8) 0xff % 256;
        lba2 = bit_and (lba / 2 ^ 16) 0xff % 256;
      } in
      let e1 = ata.select sel d (omega arith) idle in
      let e2 =
        ata.set_count (count % 256) d1 (omega arith) (still e1 idle)
        ∙ ap (λ (v : View). record v { count = count % 256 }) e1 in
      let e3 =
        ata.set_lba0 (bit_and lba 0xff % 256) d2 (omega arith) (still e2 idle)
        ∙ ap (λ (v : View). record v { lba0 = bit_and lba 0xff % 256 }) e2 in
      let e4 =
        ata.set_lba1 (bit_and (lba / 2 ^ 8) 0xff % 256) d3 (omega arith) (still e3 idle)
        ∙ ap (λ (v : View). record v { lba1 = bit_and (lba / 2 ^ 8) 0xff % 256 }) e3 in
      let e5 : ata.view d5 ≡ v5 =
        ata.set_lba2 (bit_and (lba / 2 ^ 16) 0xff % 256) d4 (omega arith) (still e4 idle)
        ∙ ap (λ (v : View). record v { lba2 = bit_and (lba / 2 ^ 16) 0xff % 256 }) e4 in
      let head_small : head ≡ lba / 2 ^ 24 % 16 = bit_and_mask 4 (lba / 2 ^ 24) in
      let selects = select_byte slavebit head s (omega arith) in
      (
        d5,
        refl,
        record {
          addressed_words = ap (λ (v : View). v.words) e5;
          addressed_dirty = ap (λ (v : View). v.dirty) e5;
          addressed_idle = still e5 idle;
          addressed_unit = ap drive_of e5 ∙ omega arith;
          addressed_lba =
              ap lba_of e5
              ∙ omega (
                arith,
                bit_and_mask 8 lba,
                bit_and_mask 8 (lba / 2 ^ 8),
                bit_and_mask 8 (lba / 2 ^ 16),
              );
          addressed_count = ap count_of e5 ∙ ground arith;
        },
      )
    where
      still : {v w : View} → v ≡ w → Idle w → Idle v
      still e (b, l) = (ap (λ (v : View). v.busy) e ∙ b, ap (λ (v : View). v.left) e ∙ l)

  -- A read or a write command, `law` being that of the interface, starts a transfer from the
  -- address on, of `count` sectors, or 256 if it is 0, if they are sound.
  pub send_command-At :
      (command : ℕ) (writing : Bool) (slavebit count lba : ℕ) (d : bus.Device)
      → ((e : bus.Device)
          → Idle (ata.view e)
          → ((j : ℕ)
              → j < count_of (ata.view e)
              → ata.sound (drive_of (ata.view e)) (lba_of (ata.view e) + j) ≡ true)
          → ata.view (bus.write (reg_port ch Reg.command) (command % 256) e)
            ≡ start writing (ata.delay e) (ata.view e))
      → slavebit < 2
      → count < 256
      → lba < 2 ^ 28
      → Idle (ata.view d)
      → ((j : ℕ) → j < (if count == 0 then 256 else count) → ata.sound slavebit (lba + j) ≡ true)
      → At
          (ata.view d).words
          slavebit
          (lba * 256)
          ((if count == 0 then 256 else count) * 256)
          writing
          latency
          (ata.view
            (send_command bus ch slavebit (bit_and (lba / 2 ^ 24) 0x0f) count lba command d))
        × ((ata.view (
              send_command bus ch slavebit (bit_and (lba / 2 ^ 24) 0x0f) count lba command d)).dirty
            ≡ (ata.view d).dirty)
  send_command-At command writing slavebit count lba d law s c l idle sound =
      let (d5, sent, a) = send_command-Addressed command slavebit count lba d s c l idle in
      let e6 =
        ap ata.view sent
        ∙ law d5 a.addressed_idle
            (λ j h. rw (a.addressed_unit, a.addressed_lba) (sound j (rw a.addressed_count at h))) in
      (
        record {
          same_words = ap (λ (v : View). v.words) e6 ∙ a.addressed_words;
          same_unit = ap (λ (v : View). v.unit) e6 ∙ a.addressed_unit;
          same_pos = ap (λ (v : View). v.pos) e6 ∙ ap (λ n. n * 256) a.addressed_lba;
          same_left = ap (λ (v : View). v.left) e6 ∙ ap (λ n. n * 256) a.addressed_count;
          same_writing = ap (λ (v : View). v.writing) e6;
          soon = omega (arith, ap (λ (v : View). v.busy) e6, ata.delay_le d5);
          over = λ z. absurd (ground arith);
          chosen = ap drive_of e6 ∙ a.addressed_unit;
          no_err =
              ap (λ (v : View). v.err slavebit) e6
              ∙ set_at_same _ _ false (ata.view d5).err (sym a.addressed_unit);
          no_df =
              ap (λ (v : View). v.df slavebit) e6
              ∙ set_at_same _ _ false (ata.view d5).df (sym a.addressed_unit);
        },
        ap (λ (v : View). v.dirty) e6 ∙ a.addressed_dirty,
      )

  -- A read command whose first sector is not sound ends with an error.
  pub send_command-Refused :
      (slavebit count lba : ℕ) (d : bus.Device)
      → slavebit < 2
      → count < 256
      → lba < 2 ^ 28
      → Idle (ata.view d)
      → ata.present slavebit ≡ true
      → ata.sound slavebit lba ≡ false
      → (d1 : bus.Device) × (send_command bus ch slavebit
            (bit_and (lba / 2 ^ 24) 0x0f)
            count
            lba
            Cmd.read_pio
            d
          ≡ d1)
        × ((ata.view d1).words ≡ (ata.view d).words)
        × ((ata.view d1).left ≡ 0)
        × ((ata.view d1).busy ≤ latency)
        × ((ata.view d1).err (drive_of (ata.view d1)) ≡ true)
  send_command-Refused slavebit count lba d s c l idle there bad =
      let (d5, sent, a) = send_command-Addressed Cmd.read_pio slavebit count lba d s c l idle in
      let e6 =
        ap ata.view sent
        ∙ ata.read_error d5 a.addressed_idle (rw a.addressed_unit there)
            (rw (a.addressed_unit, a.addressed_lba) bad) in
      (
        _,
        refl,
        ap (λ (v : View). v.words) e6 ∙ a.addressed_words,
        ap (λ (v : View). v.left) e6,
        omega (arith, ap (λ (v : View). v.busy) e6, ata.delay_le d5),
        ap (λ (v : View). v.err (drive_of v)) e6
            ∙ set_at_same (drive_of (ata.view d5)) _ true (ata.view d5).err refl,
      )
