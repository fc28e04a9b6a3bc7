-- ===== src/Node/Capability.antt =====
-- crates/convergio-mesh/src/capability_types.rs: the tags of capabilities and their text form.
pub mod RoundTrip
use convergio_mesh.Prelude.{◌++◌, Bool, List, if◌then◌else◌}
use convergio_mesh.Prelude.Text.{Text, codes, text_eq}

pub data CapabilityTag : Type 0 where
  gpu voice compute storage high_memory low_latency inference code_execution : CapabilityTag

unfoldable pub to_string : CapabilityTag → Text
to_string gpu = codes "gpu"
to_string voice = codes "voice"
to_string compute = codes "compute"
to_string storage = codes "storage"
to_string high_memory = codes "high_memory"
to_string low_latency = codes "low_latency"
to_string inference = codes "inference"
to_string code_execution = codes "code_execution"

pub data ParsedTag : Type 0 where
  ok : CapabilityTag → ParsedTag
  err : Text → ParsedTag

unfoldable pub from_str : Text → ParsedTag
unfolding text_eq
from_str s =
    if text_eq s (codes "gpu")
    then ok gpu
    else if text_eq s (codes "voice")
    then ok voice
    else if text_eq s (codes "compute")
    then ok compute
    else if text_eq s (codes "storage")
    then ok storage
    else if text_eq s (codes "high_memory")
    then ok high_memory
    else if text_eq s (codes "low_latency")
    then ok low_latency
    else if text_eq s (codes "inference")
    then ok inference
    else if text_eq s (codes "code_execution")
    then ok code_execution
    else err (codes "unknown capability tag: " ++ s)
