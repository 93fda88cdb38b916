-- ===== src/Extenders/ShiftRegister/Chip.antt =====
-- The documented behaviour of a chain of 74595 registers whose reset line is high: a rising shift clock takes the
-- data line in as the first stage, and a rising load strobe copies the stages to the outputs.
use stacx.Prelude.{◌≡◌, refl, Bool, true, false, [], ◌∷◌, List, if◌then◌else◌}
use stacx.Extenders.ShiftRegister.{Line, ds, shcp, stcp, nmr, noe, Drive}

pub record Chip : Type 1 where
  pub State : Type 0
  pub drive : Line → Bool → State → State
  pub data_line : State → Bool
  pub clock_line : State → Bool
  pub strobe_line : State → Bool
  pub stages : State → List Bool
  pub outputs : State → List Bool
  pub data-drive : (b : Bool) (s : State) → data_line (drive ds b s) ≡ b
  pub clock-drive : (b : Bool) (s : State) → clock_line (drive shcp b s) ≡ b
  pub strobe-drive : (b : Bool) (s : State) → strobe_line (drive stcp b s) ≡ b
  pub clock-ds : (b : Bool) (s : State) → clock_line (drive ds b s) ≡ clock_line s
  pub strobe-ds : (b : Bool) (s : State) → strobe_line (drive ds b s) ≡ strobe_line s
  pub strobe-shcp : (b : Bool) (s : State) → strobe_line (drive shcp b s) ≡ strobe_line s
  pub stages-ds : (b : Bool) (s : State) → stages (drive ds b s) ≡ stages s
  pub stages-rise :
      (s : State) → clock_line s ≡ false → stages (drive shcp true s) ≡ data_line s ∷ stages s
  pub stages-fall : (s : State) → stages (drive shcp false s) ≡ stages s
  pub outputs-rise : (s : State) → strobe_line s ≡ false → outputs (drive stcp true s) ≡ stages s
  pub outputs-fall : (s : State) → outputs (drive stcp false s) ≡ outputs s

-- The lines are driven one after another.
abbrev pub drive_all : (C : Chip) → List Drive → C.State → C.State
drive_all C [] s = s
drive_all C ((line, b) ∷ later) s = drive_all C later (C.drive line b s)

-- A chip as a record of its lines, its stages and its outputs.
pub record Registers : Type 0 where
  pub data_in : Bool
  pub clock : Bool
  pub strobe : Bool
  pub shifted : List Bool
  pub shown : List Bool

abbrev drive_registers : Line → Bool → Registers → Registers
drive_registers ds b s = record s { data_in = b }
drive_registers shcp true s = record s {
  clock = true;
  shifted = if s.clock then s.shifted else s.data_in ∷ s.shifted;
}
drive_registers shcp false s = record s { clock = false }
drive_registers stcp true s = record s {
  strobe = true;
  shown = if s.strobe then s.shown else s.shifted;
}
drive_registers stcp false s = record s { strobe = false }
drive_registers nmr b s = s
drive_registers noe b s = s

abbrev pub registers : Chip
registers = record {
  State = Registers;
  drive = drive_registers;
  data_line = λ s. s.data_in;
  clock_line = λ s. s.clock;
  strobe_line = λ s. s.strobe;
  stages = λ s. s.shifted;
  outputs = λ s. s.shown;
  data-drive = λ b s. refl;
  clock-drive = λ b s. clocked b s;
  strobe-drive = λ b s. strobed b s;
  clock-ds = λ b s. refl;
  strobe-ds = λ b s. refl;
  strobe-shcp = λ b s. kept b s;
  stages-ds = λ b s. refl;
  stages-rise = λ s low. simp low;
  stages-fall = λ s. refl;
  outputs-rise = λ s low. simp low;
  outputs-fall = λ s. refl;
}
  where
    clocked : (b : Bool) (s : Registers) → (drive_registers shcp b s).clock ≡ b
    clocked true s = refl
    clocked false s = refl

    strobed : (b : Bool) (s : Registers) → (drive_registers stcp b s).strobe ≡ b
    strobed true s = refl
    strobed false s = refl

    kept : (b : Bool) (s : Registers) → (drive_registers shcp b s).strobe ≡ s.strobe
    kept true s = refl
    kept false s = refl
