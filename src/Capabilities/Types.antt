-- ===== src/Capabilities/Types.antt =====
-- capabilities/manifest.ts: the vocabulary of capabilities that the approval queue uses too.
use prism_spectra.Common.{◌≡◌, ◌↔◌, Bool, true, false, String, arith, Eq}

pub data CapabilityApprovalClass : Type 0 where
  observe preview write destructive remote expensive : CapabilityApprovalClass

-- the string in the source
unfoldable pub approval_class_name : CapabilityApprovalClass → String
approval_class_name observe = "observe"
approval_class_name preview = "preview"
approval_class_name write = "write"
approval_class_name destructive = "destructive"
approval_class_name remote = "remote"
approval_class_name expensive = "expensive"

abbrev pub approval_class_beq : CapabilityApprovalClass → CapabilityApprovalClass → Bool
approval_class_beq observe observe = true
approval_class_beq preview preview = true
approval_class_beq write write = true
approval_class_beq destructive destructive = true
approval_class_beq remote remote = true
approval_class_beq expensive expensive = true
approval_class_beq _ _ = false

pub approval_class_beq_iff :
    (a b : CapabilityApprovalClass) → (approval_class_beq a b ≡ true) ↔ (a ≡ b)
approval_class_beq_iff a b = ground arith

instance abbrev pub approval_class_eq : Eq CapabilityApprovalClass
approval_class_eq = record { beq = approval_class_beq; beq_iff = approval_class_beq_iff }

pub data CapabilityCheckpointPolicy : Type 0 where
  none before_preview before_write before_and_after : CapabilityCheckpointPolicy

-- the string in the source
unfoldable pub checkpoint_policy_name : CapabilityCheckpointPolicy → String
checkpoint_policy_name none = "none"
checkpoint_policy_name before_preview = "before_preview"
checkpoint_policy_name before_write = "before_write"
checkpoint_policy_name before_and_after = "before_and_after"

abbrev pub checkpoint_policy_beq : CapabilityCheckpointPolicy → CapabilityCheckpointPolicy → Bool
checkpoint_policy_beq none none = true
checkpoint_policy_beq before_preview before_preview = true
checkpoint_policy_beq before_write before_write = true
checkpoint_policy_beq before_and_after before_and_after = true
checkpoint_policy_beq _ _ = false

pub checkpoint_policy_beq_iff :
    (a b : CapabilityCheckpointPolicy) → (checkpoint_policy_beq a b ≡ true) ↔ (a ≡ b)
checkpoint_policy_beq_iff a b = ground arith

instance abbrev pub checkpoint_policy_eq : Eq CapabilityCheckpointPolicy
checkpoint_policy_eq = record { beq = checkpoint_policy_beq; beq_iff = checkpoint_policy_beq_iff }
