-- ===== src/Ide/Sector.antt =====
-- A transfer across the wait for the drive.
use binbows_dos.Common.{ℕ, ◌<◌, ◌≡◌, refl, ap, ◌∙◌, Bool, true, ne→==, arith}
use binbows_dos.Ide.Ata.{View, drive_of}
use binbows_dos.Ide.Command.{At}
use binbows_dos.Ide.Polling.{Ready, poll_result}

-- The drive is ready after a wait, and the transfer stands where it stood.
pub At-Ready :
    {words : ℕ → ℕ → ℕ} {unit pos left : ℕ} {writing : Bool} {latency : ℕ} {v v' : View}
    → Ready v v'
    → At words unit pos left writing latency v
    → At words unit pos left writing latency v' × (v'.busy ≡ 0)
At-Ready {unit} e at = (
  record {
    same_words = ap (λ (w : View). w.words) e ∙ at.same_words;
    same_unit = ap (λ (w : View). w.unit) e ∙ at.same_unit;
    same_pos = ap (λ (w : View). w.pos) e ∙ at.same_pos;
    same_left = ap (λ (w : View). w.left) e ∙ at.same_left;
    same_writing = ap (λ (w : View). w.writing) e ∙ at.same_writing;
    soon = omega (arith, ap (λ (w : View). w.busy) e);
    over = λ z. ap (λ (w : View). w.busy) e;
    chosen = ap drive_of e ∙ at.chosen;
    no_err = ap (λ (w : View). w.err unit) e ∙ at.no_err;
    no_df = ap (λ (w : View). w.df unit) e ∙ at.no_df;
  },
  ap (λ (w : View). w.busy) e,
)

-- A check finds no error while data are waiting.
pub At-poll_result :
    {words : ℕ → ℕ → ℕ} {unit pos left : ℕ} {writing : Bool} {latency : ℕ} {v : View}
    → At words unit pos left writing latency v
    → 0 < left
    → poll_result true v ≡ 0
At-poll_result {v} at more =
    rw (at.chosen, at.no_err, at.no_df, ne→== v.left 0 (λ z. omega (arith, at.same_left))) refl
