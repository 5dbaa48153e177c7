-- ===== src/Ide/Sample.antt =====
-- A disk behind the ports of the primary channel, which follows the interface.
use binbows_dos.Common.{
  ℕ, ◌-◌, ◌%◌, ◌^◌, ◌<◌, ◌≡◌, ◌≢◌, refl, ap, ◌∙◌, Bool, ◌+◌, true, false, ltb, lt→ltb, ◌==◌,
  if◌then◌else◌, arith, bit_and,
}
use binbows_dos.Memory.{IsBytes, Memory}
use binbows_dos.Io.{Bus}
use binbows_dos.Ide.{Channels, Devices}
use binbows_dos.Ide.Probe.{primary}
use binbows_dos.Ide.Ata.{
  View, Ata, Prompt, start, refuse, flush, advance, put_word, drive_of, lba_of, count_of,
}

-- Each drive has 0x10_0000 sectors.
abbrev pub sectors : ℕ
sectors = 0x10_0000

-- Each command and sector takes the disk two reads of the status, the last sector of a write none.
abbrev pub disk_delay : View → ℕ
disk_delay d = if d.left == 1 then 0 else 2

abbrev pub disk_write : ℕ → ℕ → View → View
disk_write port v d =
    if port == 0x1f2
    then record d { count = v }
    else if port == 0x1f3
    then record d { lba0 = v }
    else if port == 0x1f4
    then record d { lba1 = v }
    else if port == 0x1f5
    then record d { lba2 = v }
    else if port == 0x1f6
    then record d { selected = v }
    else if port == 0x1f7
    then (if v == 0x20
        then (if ltb (lba_of d) sectors
            then start false (disk_delay d) d
            else refuse (disk_delay d) d)
        else if v == 0x30
        then start true (disk_delay d) d
        else if v == 0xe7
        then flush (disk_delay d) d
        else d)
    else d

abbrev pub status_byte : Bool → Bool → Bool → ℕ
status_byte err df none =
    0x50 + (if err then 1 else 0) + (if df then 0x20 else 0) + (if none then 0 else 8)

abbrev pub disk_status : View → ℕ × View
disk_status d =
    if ltb 0 d.busy
    then (0x80, record d { busy = d.busy - 1 })
    else (status_byte (d.err (drive_of d)) (d.df (drive_of d)) (d.left == 0), d)

abbrev pub disk_read : ℕ → View → ℕ × View
disk_read port d = if port == 0x1f7 then disk_status d else (0xff, d)

abbrev pub disk : Bus
disk = record {
  Device = View;
  read = disk_read;
  write = disk_write;
  read_word = λ port d. (d.words d.unit d.pos, advance (disk_delay d) d);
  write_word = λ port w d. advance (disk_delay d) (put_word w d);
}

status_byte-bits :
    (err df none : Bool)
    → (bit_and (status_byte err df none) 0x80 ≡ 0)
      × (bit_and (status_byte err df none) 0x01 ≡ (if err then 0x01 else 0))
      × (bit_and (status_byte err df none) 0x20 ≡ (if df then 0x20 else 0))
      × (bit_and (status_byte err df none) 0x08 ≡ (if none then 0 else 0x08))
status_byte-bits true true true = (refl, refl, refl, refl)
status_byte-bits true true false = (refl, refl, refl, refl)
status_byte-bits true false true = (refl, refl, refl, refl)
status_byte-bits true false false = (refl, refl, refl, refl)
status_byte-bits false true true = (refl, refl, refl, refl)
status_byte-bits false true false = (refl, refl, refl, refl)
status_byte-bits false false true = (refl, refl, refl, refl)
status_byte-bits false false false = (refl, refl, refl, refl)

pub ready_disk :
    (d : View)
    → d.busy ≡ 0
    → (bit_and (disk_status d).0 0x80 ≡ 0)
      × (bit_and (disk_status d).0 0x01 ≡ (if d.err (drive_of d) then 0x01 else 0))
      × (bit_and (disk_status d).0 0x20 ≡ (if d.df (drive_of d) then 0x20 else 0))
      × (bit_and (disk_status d).0 0x08 ≡ (if d.left == 0 then 0 else 0x08))
      × ((disk_status d).1 ≡ d)
ready_disk d e =
    let (bsy, err, df, drq) =
      status_byte-bits (d.err (drive_of d)) (d.df (drive_of d)) (d.left == 0) in
    rw e (bsy, err, df, drq, refl)

pub busy_disk :
    (d : View)
    → 0 < d.busy
    → (bit_and (disk_status d).0 0x80 ≢ 0) × ((disk_status d).1 ≡ record d { busy = d.busy - 1 })
busy_disk d h = rw (lt→ltb 0 d.busy h) ((λ e. omega arith), refl)

pub some_sectors : (v : View) → 0 < count_of v
some_sectors v = ground arith

abbrev pub disk_ata : Ata disk primary 2
disk_ata = record {
  view = λ d. d;
  present = λ u. true;
  sound = λ u l. ltb l sectors;
  sound_present = λ u l e. refl;
  delay = disk_delay;
  delay_le = λ d. ground arith;
  select = λ v d h i. refl;
  set_count = λ v d h i. refl;
  set_lba0 = λ v d h i. refl;
  set_lba1 = λ v d h i. refl;
  set_lba2 = λ v d h i. refl;
  read_pio = λ d i sound.
      let first : ltb (lba_of d) sectors ≡ true =
        ap (λ l. ltb l sectors) (omega arith) ∙ sound 0 (some_sectors d) in
      rw first refl;
  write_pio = λ d i sound. refl;
  read_error = λ d i there bad. rw bad refl;
  cache_flush = λ d i. refl;
  busy_status = busy_disk;
  ready_status = ready_disk;
  altstatus = λ d. refl;
  read_word = λ d e f h. (refl, refl);
  write_word = λ w d e f h s. refl;
}

pub disk-Prompt : Prompt disk primary 2 disk_ata
disk-Prompt d writes last = rw last refl

abbrev pub primary_channels : Channels
primary_channels n = primary

-- Drive 1 is the slave of the channel.
abbrev pub found_drives : Devices
found_drives n = record {
  reserved = 1;
  channel = 0;
  drive = 1;
  type = 0;
  signature = 0;
  capabilities = 0;
  command_sets = 0;
  size = 0x100000;
  model = λ k. 0;
}

-- Word `p` of drive `u` is `p` cut to a word.
abbrev pub numbered : View
numbered = record {
  words = λ u p. p % 2 ^ 16;
  selected = 0;
  count = 0;
  lba0 = 0;
  lba1 = 0;
  lba2 = 0;
  unit = 0;
  pos = 0;
  left = 0;
  writing = false;
  busy = 0;
  err = λ u. false;
  df = λ u. false;
  dirty = λ u. false;
}

abbrev pub counting : Memory
counting q = q % 256

pub counting-IsBytes : IsBytes counting
counting-IsBytes q = omega arith
