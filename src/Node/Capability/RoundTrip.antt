-- ===== src/Node/Capability/RoundTrip.antt =====
-- Tags and their texts.
use convergio_mesh.Prelude.{◌≡◌, ◌↔◌, refl, sym, ap, ◌∙◌, Bool-cases, inl, inr, if◌then◌else◌}
use convergio_mesh.Prelude.Text.{Text, text_eq}
use convergio_mesh.Prelude.Text.Order.{text_eq_iff}
use convergio_mesh.Node.Capability.{
  CapabilityTag, gpu, voice, compute, storage, high_memory, low_latency, inference, code_execution,
  to_string, ParsedTag, ok, from_str,
}

from_str-to_string : (t : CapabilityTag) → from_str (to_string t) ≡ ok t
unfolding from_str to_string
from_str-to_string gpu = refl
from_str-to_string voice = refl
from_str-to_string compute = refl
from_str-to_string storage = refl
from_str-to_string high_memory = refl
from_str-to_string low_latency = refl
from_str-to_string inference = refl
from_str-to_string code_execution = refl

-- One test of the match: the text of a tag, or what the later tests say.
test :
    (s u : Text) (x t : CapabilityTag) (later : ParsedTag)
    → to_string x ≡ u
    → (later ≡ ok t → s ≡ to_string t)
    → (if text_eq s u then ok x else later) ≡ ok t
    → s ≡ to_string t
test s u x t later e next h = elim (Bool-cases (text_eq s u)) [
  | inl same ↦
      let xt : x ≡ t = cc (rw same at h) in (text_eq_iff s u).0 same ∙ sym e ∙ ap to_string xt
  | inr other ↦ next (rw other at h)
]

from_str-ok : (s : Text) (t : CapabilityTag) → from_str s ≡ ok t → s ≡ to_string t
unfolding from_str to_string
from_str-ok s t = test s _ gpu t _ refl (
    test s _ voice t _ refl (
      test s _ compute t _ refl (
        test s _ storage t _ refl (
          test s _ high_memory t _ refl (
            test s _ low_latency t _ refl
              (test s _ inference t _ refl (test s _ code_execution t _ refl (λ h. cc))))))))

-- A text parses as a tag exactly if it is the text that the tag is displayed as.
pub from_str_iff : (s : Text) (t : CapabilityTag) → (from_str s ≡ ok t) ↔ (s ≡ to_string t)
from_str_iff s t = (from_str-ok s t, λ e. ap from_str e ∙ from_str-to_string t)
