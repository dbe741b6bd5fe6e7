-- ===== src/Merge/Rfc.antt =====
-- `merge_patch` is the MergePatch of RFC 7396, section 2, which is written here as the RFC has it: an
-- absent target is `none`.
use nsclient_fleet_server.Common.{false, ◌≡◌, refl, sym, ◌∙◌, ap, Option, none, some, arith, ◌==◌}
use nsclient_fleet_server.Common.Text.{Text, text_equality, text_eq_iff}
use nsclient_fleet_server.Json.{
  Value, null, bool, number, string, array, object, Fields, end, field, member,
}
use nsclient_fleet_server.Merge.Patch.{
  remove_member, set_member, strip_nulls, strip_fields, merge_patch, merge_fields, promoted,
}

-- "if Target is not an Object: Target = {}"
abbrev pub as_object : Option Value → Fields
as_object (some (object m)) = m
as_object _ = end

-- "if Value is null: remove Name; else: Target[Name] = MergePatch(Target[Name], Value)"
abbrev pub rfc_member : Text → Value → (Option Value → Value) → Fields → Fields
rfc_member k null merge target = remove_member k target
rfc_member k _ merge target = set_member k (merge (member k target)) target

unfoldable mutual
  pub rfc_merge : Value → Option Value → Value
  rfc_merge (object patch_map) target = object (rfc_fields patch_map (as_object target))
  rfc_merge null target = null
  rfc_merge (bool b) target = bool b
  rfc_merge (number n) target = number n
  rfc_merge (string s) target = string s
  rfc_merge (array xs) target = array xs

  pub rfc_fields : Fields → Fields → Fields
  rfc_fields end target = target
  rfc_fields (field k v m) target = rfc_fields m (rfc_member k v (rfc_merge v) target)

-- The keys of every object of a value, arrays aside, are distinct, as those of a map are.
unfoldable mutual
  pub IsKeyed : Value → Type 0
  IsKeyed (object m) = AreKeyed m
  IsKeyed null = Unit
  IsKeyed (bool b) = Unit
  IsKeyed (number n) = Unit
  IsKeyed (string s) = Unit
  IsKeyed (array xs) = Unit

  pub AreKeyed : Fields → Type 0
  AreKeyed end = Unit
  AreKeyed (field k v m) = (member k m ≡ none) × IsKeyed v × AreKeyed m

-- One map after another; a key that is not there is inserted at the end.
append_fields : Fields → Fields → Fields
append_fields end n = n
append_fields (field k v m) n = field k v (append_fields m n)

abbrev append_member : Text → Value → Fields → Fields
append_member k v m = append_fields m (field k v end)

set_member-new :
    (k : Text) (v : Value) (m : Fields) → member k m ≡ none → set_member k v m ≡ append_member k v m
unfolding set_member append_fields member
set_member-new k v end h = refl
set_member-new k v (field j w m) h = ground (arith, set_member-new k v m)

remove_member-absent : (k : Text) (m : Fields) → member k m ≡ none → remove_member k m ≡ m
unfolding remove_member member
remove_member-absent k end h = refl
remove_member-absent k (field j w m) h = ground (arith, remove_member-absent k m)

append_fields-member :
    (k : Text) (v : Value) (m n : Fields)
    → append_fields (append_member k v m) n ≡ append_fields m (field k v n)
unfolding append_fields
append_fields-member k v end n = refl
append_fields-member k v (field j w m) n = ap (field j w) (append_fields-member k v m n)

append_fields-end : (m : Fields) → append_fields m end ≡ m
unfolding append_fields
append_fields-end end = refl
append_fields-end (field j w m) = ap (field j w) (append_fields-end m)

-- No key of the first map is in the second.
abbrev AreAbsent : Fields → Fields → Type 0
AreAbsent end t = Unit
AreAbsent (field k v m) t = (member k t ≡ none) × AreAbsent m t

AreAbsent-end : (m : Fields) → AreAbsent m end
unfolding member
AreAbsent-end end = tt
AreAbsent-end (field k v m) = (refl, AreAbsent-end m)

member-append_ne :
    (j k : Text) (v : Value) (t : Fields)
    → (j == k) ≡ false
    → member j t ≡ none
    → member j (append_member k v t) ≡ none
unfolding member append_fields
member-append_ne j k v end n h = ground (arith, text_eq_iff j k, text_eq_iff k j)
member-append_ne j k v (field i w t) n h = ground (arith, member-append_ne j k v t)

AreAbsent-append :
    (k : Text) (v : Value) (m t : Fields)
    → member k m ≡ none
    → AreAbsent m t
    → AreAbsent m (append_member k v t)
unfolding member
AreAbsent-append k v end t h a = tt
AreAbsent-append k v (field j w m) t h a =
    ground (arith, AreAbsent-append k v m t, member-append_ne j k v t)

-- One member whose key is not there, given what its value becomes, and then the rest of the patch.
insert_then :
    (k : Text) (v v' : Value) (m t : Fields)
    → rfc_merge v none ≡ v'
    → member k t ≡ none
    → rfc_fields m (append_member k v' t) ≡ append_fields (append_member k v' t) (strip_fields m)
    → rfc_fields m (set_member k (rfc_merge v (member k t)) t)
      ≡ append_fields t (field k v' (strip_fields m))
insert_then k v v' m t e h r =
    ap (λ o. rfc_fields m (set_member k (rfc_merge v o) t)) h
    ∙ ap (λ x. rfc_fields m (set_member k x t)) e
    ∙ ap (rfc_fields m) (set_member-new k v' t h)
    ∙ r
    ∙ append_fields-member k v' t (strip_fields m)

mutual
  unfolding rfc_merge strip_nulls IsKeyed append_fields

  rfc_merge-none : (v : Value) → IsKeyed v → rfc_merge v none ≡ strip_nulls v
  rfc_merge-none (object m) w = ap object (rfc_fields-absent m end w (AreAbsent-end m))
  rfc_merge-none null w = refl
  rfc_merge-none (bool b) w = refl
  rfc_merge-none (number n) w = refl
  rfc_merge-none (string s) w = refl
  rfc_merge-none (array xs) w = refl

  rfc_fields-absent :
      (m t : Fields)
      → AreKeyed m
      → AreAbsent m t
      → rfc_fields m t ≡ append_fields t (strip_fields m)
  rfc_fields-absent end t w a = sym (append_fields-end t)
  rfc_fields-absent (field k null m) t w a =
      ap (rfc_fields m) (remove_member-absent k t a.0) ∙ rfc_fields-absent m t w.2 a.1
  rfc_fields-absent (field k v m) t w a =
      insert_then k v (strip_nulls v) m t (rfc_merge-none v w.1) a.0 (
        rfc_fields-absent m (append_member k (strip_nulls v) t) w.2
          (AreAbsent-append k (strip_nulls v) m t w.0 a.1))

as_object-some : (t : Value) → promoted t ≡ as_object (some t)
as_object-some (object m) = refl
as_object-some _ = refl

-- The two branches of the source are the one recursive call of the RFC.
set_either :
    (k : Text) (v : Value) (t : Fields) (o : Option Value)
    → ((x : Value) → merge_patch v x ≡ rfc_merge v (some x))
    → rfc_merge v none ≡ strip_nulls v
    → elim o [
      | some existing ↦ set_member k (merge_patch v existing) t
      | none ↦ set_member k (strip_nulls v) t
    ]
      ≡ set_member k (rfc_merge v o) t
set_either k v t none h e = ap (λ x. set_member k x t) (sym e)
set_either k v t (some x) h e = ap (λ y. set_member k y t) (h x)

mutual
  unfolding merge_patch rfc_merge IsKeyed

  merge_patch-some : (p : Value) → IsKeyed p → (t : Value) → merge_patch p t ≡ rfc_merge p (some t)
  merge_patch-some (object m) w t =
      ap object (merge_fields-rfc m (promoted t) w ∙ ap (rfc_fields m) (as_object-some t))
  merge_patch-some null w t = refl
  merge_patch-some (bool b) w t = refl
  merge_patch-some (number n) w t = refl
  merge_patch-some (string s) w t = refl
  merge_patch-some (array xs) w t = refl

  merge_fields-rfc : (m t : Fields) → AreKeyed m → merge_fields m t ≡ rfc_fields m t
  merge_fields-rfc end t w = refl
  merge_fields-rfc (field k null m) t w = merge_fields-rfc m (remove_member k t) w.2
  merge_fields-rfc (field k v m) t w =
      ap (merge_fields m)
        (set_either k v t (member k t) (merge_patch-some v w.1) (rfc_merge-none v w.1))
      ∙ merge_fields-rfc m (set_member k (rfc_merge v (member k t)) t) w.2

-- For a patch whose objects have distinct keys, `merge_patch` is MergePatch of RFC 7396 on every
-- target, and `strip_nulls` is MergePatch on an absent target.
pub merge_patch-rfc :
    (p t : Value)
    → IsKeyed p
    → (merge_patch p t ≡ rfc_merge p (some t)) × (strip_nulls p ≡ rfc_merge p none)
merge_patch-rfc p t w = (merge_patch-some p w t, sym (rfc_merge-none p w))
