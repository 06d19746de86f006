-- ===== src/Execution/Runtime/Tracks.antt =====
-- packages/execution-runtime/src/index.ts: the phases that a call may find the record of its execution in,
-- and the steps from there.
use proflow.Base.{◌≡◌, refl, Bool, true, false}
use proflow.Execution.Runtime.{ExecutionRecord, Tables}
use proflow.Execution.Runtime.Life.{
  Phase, waiting, working, affecting, done, refused, lost, phase_of, Step, refuse, begin, fail,
  complete, affect, affect_again, confirm, deny, lose, subject_of, Holds, Holds-same,
}

-- The row of the execution has a record that is not settled.
abbrev pub is_live : Phase → Bool
is_live waiting = true
is_live working = true
is_live affecting = true
is_live _ = false

abbrev pub is_busy : Phase → Bool
is_busy working = true
is_busy affecting = true
is_busy _ = false

pub record Tracks (p : Phase → Bool) (r : ExecutionRecord) (s : Tables) : Type 0 where
  pub held : ExecutionRecord
  pub holds : Holds held s
  pub subject : subject_of held ≡ subject_of r
  pub phase : p (phase_of held) ≡ true

pub Tracks-same :
    (p : Phase → Bool) (r : ExecutionRecord) (s t : Tables)
    → t.executions ≡ s.executions
    → Tracks p r s
    → Tracks p r t
Tracks-same p r s t h k = record {
  held = k.held;
  holds = Holds-same k.held s t h k.holds;
  subject = k.subject;
  phase = k.phase;
}

pub Tracks-held :
    (p : Phase → Bool) (r : ExecutionRecord) (s : Tables)
    → Holds r s
    → p (phase_of r) ≡ true
    → Tracks p r s
Tracks-held p r s h k = record { held = r; holds = h; subject = refl; phase = k }

pub refuse-Step : (p : Phase) → is_live p ≡ true → Step p refused
refuse-Step waiting h = refuse
refuse-Step working h = fail
refuse-Step affecting h = deny
refuse-Step _ h = cc

pub affect-Step : (p : Phase) → is_busy p ≡ true → Step p affecting
affect-Step working h = affect
affect-Step affecting h = affect_again
affect-Step _ h = cc

pub complete-Step : (p : Phase) → is_busy p ≡ true → Step p done
complete-Step working h = complete
complete-Step affecting h = confirm
complete-Step _ h = cc

pub busy-is_live : (p : Phase) → is_busy p ≡ true → is_live p ≡ true
busy-is_live working h = refl
busy-is_live affecting h = refl
busy-is_live _ h = cc

abbrev pub is_waiting : Phase → Bool
is_waiting waiting = true
is_waiting _ = false

pub begin-Step : (p : Phase) → is_waiting p ≡ true → Step p working
begin-Step waiting h = begin
begin-Step _ h = cc

abbrev pub is_affecting : Phase → Bool
is_affecting affecting = true
is_affecting _ = false

pub lose-Step : (p : Phase) → is_affecting p ≡ true → Step p lost
lose-Step affecting h = lose
lose-Step _ h = cc

pub waiting-is_live : (p : Phase) → is_waiting p ≡ true → is_live p ≡ true
waiting-is_live waiting h = refl
waiting-is_live _ h = cc
