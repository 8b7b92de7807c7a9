-- ===== src/Element.antt =====
-- The element rule's data, crates/ndn-data-conformance/src/element.rs: the edits of an operation, an
-- element's state and its merged value, and the helpers on texts.
--
-- A text that is spliced or spelled in hex is the list of its code points; a name that is only
-- compared is a `String`. The merge engine's own types (crate ndn_data) are `VersionId`, by the
-- writer's key and its sequence number, and what the rule reads of them.
pub mod Digest
pub mod Text
mod Examples
use Prim.Native.Nat.{compare, Ordering}
use Prim.Native.String.{String, compare as compare_text}
use ndn_sim.Prelude.{
  ℕ, zero, suc, ◌+◌, ◌-◌, ◌*◌, ◌/◌, ◌%◌, Bool, true, false, ◌&&◌, List, [], ◌∷◌, ◌++◌, Option, none,
  some, if◌then◌else◌, ltb, leb, ◌==◌, min, length, ◌>>=◌, sat_add, lex, u64_max,
}

abbrev pub Text : Type 0
Text = List ℕ

abbrev pub Digest : Type 0
Digest = List ℕ

pub record Splice : Type 0 where
  pub at : ℕ
  pub remove : ℕ
  pub insert : Text

pub record Place : Type 0 where
  pub parent : String
  pub order : String

pub record Lock : Type 0 where
  pub setting : String
  pub by : String

pub record ElementState : Type 0 where
  pub kind : Option Text
  pub place : Option Place
  pub settings : List (String × Text)
  pub removed : Bool
  pub locks : List Lock

pub data Edit : Type 0 where
  create : Text → Edit
  sets : String → Text → Edit
  change : String → Splice → Edit
  places : Place → Edit
  remove : Edit
  lock unlock : String → Edit
  checkpoint : ElementState → Edit

pub record Timed : Type 0 where
  pub after_ms : ℕ
  pub edit : Edit

pub record Operation : Type 0 where
  pub writer : String
  pub basis : List Text
  pub edits : List Timed

pub data Slot : Type 0 where
  kind_slot place_slot removed_slot : Slot
  setting_slot : String → Slot

-- The derived order of slots.
abbrev pub slot_cmp : Slot → Slot → Ordering
slot_cmp kind_slot kind_slot = Ordering.eq
slot_cmp kind_slot _ = Ordering.lt
slot_cmp place_slot kind_slot = Ordering.gt
slot_cmp place_slot place_slot = Ordering.eq
slot_cmp place_slot _ = Ordering.lt
slot_cmp removed_slot kind_slot = Ordering.gt
slot_cmp removed_slot place_slot = Ordering.gt
slot_cmp removed_slot removed_slot = Ordering.eq
slot_cmp removed_slot (setting_slot t) = Ordering.lt
slot_cmp (setting_slot s) (setting_slot t) = compare_text s t
slot_cmp (setting_slot s) _ = Ordering.gt

abbrev pub lock_cmp : Lock → Lock → Ordering
lock_cmp a b = lex (compare_text a.setting b.setting) (compare_text a.by b.by)

pub data Written : Type 0 where
  text : Text → Written
  place : Place → Written
  removed : Written

pub record Alternative : Type 0 where
  pub writer : String
  pub version : Text
  pub value : Written

pub record Variant : Type 0 where
  pub slot : Slot
  pub alternatives : List Alternative

pub record Head : Type 0 where
  pub writer : String
  pub seq : ℕ
  pub digest : Text

pub record ElementValue : Type 0 where
  pub state : ElementState
  pub variants : List Variant
  pub heads : List Head

pub record VersionId : Type 0 where
  pub writer : String
  pub seq : ℕ

-- `char::from_digit` as `{:x}` prints it.
abbrev pub hex_digit : ℕ → ℕ
hex_digit d = if ltb d 10 then 48 + d else 87 + d

unfoldable pub hex : Digest → Text
hex [] = []
hex (b ∷ bs) = hex_digit (b / 16) ∷ hex_digit (b % 16) ∷ hex bs

abbrev pub digit : ℕ → Option ℕ
digit c =
    if leb 48 c && leb c 57
    then some (c - 48)
    else if leb 97 c && leb c 102
    then some (c - 87)
    else if leb 65 c && leb c 70
    then some (c - 55)
    else none

-- `u8::from_str_radix` of two characters: a leading plus is read over.
abbrev pub octet : ℕ → ℕ → Option ℕ
octet a b =
    if a == 43 then digit b else (digit a >>= (λ high. digit b >>= (λ low. some (high * 16 + low))))

unfoldable pub octets : Text → Option Digest
octets (a ∷ b ∷ s) = octet a b >>= (λ o. octets s >>= (λ os. some (o ∷ os)))
octets _ = some []

-- The 32 octets that the text spells.
unfoldable pub unhex : Text → Option Digest
unfolding octets
unhex s = if length s == 64 then octets s else none

abbrev pub take : ℕ → Text → Text
take zero s = []
take (suc n) [] = []
take (suc n) (c ∷ s) = c ∷ take n s

abbrev pub drop : ℕ → Text → Text
drop zero s = s
drop (suc n) [] = []
drop (suc n) (c ∷ s) = drop n s

-- By characters; offsets past the end clamp to it.
unfoldable pub spliced : Text → Splice → Text
spliced base splice =
    let at = min splice.at (length base) in
    let end = min (sat_add at splice.remove) (length base) in
    (take at base ++ splice.insert) ++ drop end base

-- `Operation::by`, `over`, `over_heads`, `then` and `set`.
pub by : String → Operation
by writer = record { writer = writer; basis = []; edits = [] }

abbrev pub hexes : List Digest → List Text
hexes [] = []
hexes (d ∷ ds) = hex d ∷ hexes ds

pub over : List Digest → Operation → Operation
over basis op = record op { basis = op.basis ++ hexes basis }

-- The digests of the heads that spell one.
abbrev pub head_digests : List Head → List Digest
head_digests [] = []
head_digests (h ∷ hs) =
    let rest = head_digests hs in elim (unhex h.digest) [ none ↦ rest | some d ↦ d ∷ rest ]

pub over_heads : ElementValue → Operation → Operation
unfolding over
over_heads value op = over (head_digests value.heads) op

pub then' : ℕ → Edit → Operation → Operation
then' after_ms edit op = record op {
  edits = op.edits ++ record { after_ms = after_ms; edit = edit } ∷ [];
}

pub set : String → Text → Operation → Operation
unfolding then'
set setting value op = then' 1000 (Edit.sets setting value) op
