-- ===== src/Permission/Match.antt =====
-- shared/src/permissions.ts: matching held nodes against required ones, and the shape check of a
-- node that a person typed.
use Prim.Native.String.{[], ◌∷◌}
use server_central.Prelude.{
  String, code, Bool, true, false, ◌&&◌, ◌||◌, List, if◌then◌else◌, ◌===◌, ◌==◌, includes, any,
  starts_with, drop_last, ends_with_wildcard, is_letter, is_alnum,
}
use server_central.Permission.Registry.{sensitive_permissions}

unfoldable pub permission_matches : String → String → Bool
permission_matches held required =
    if held === required
    then true
    else if held === "*"
    then true
    else ends_with_wildcard held && starts_with required (drop_last held)

unfoldable pub has_permission : List String → String → Bool
has_permission held required =
    if includes sensitive_permissions required
    then includes held required
    else any (λ h. permission_matches h required) held

unfoldable pub permission_overlaps : String → String → Bool
permission_overlaps a b = permission_matches a b || permission_matches b a

-- One requirement of `hasAnyPermission`.
unfoldable pub meets_requirement : List String → String → Bool
meets_requirement held r =
    if includes sensitive_permissions r
    then includes held r
    else any (λ h. permission_overlaps h r) held

unfoldable pub has_any_permission : List String → List String → Bool
unfolding meets_requirement
has_any_permission held List.[] = true
has_any_permission held (List.◌∷◌ r rs) = any (meets_requirement held) (List.◌∷◌ r rs)

-- The regular expression `^[a-z][a-z0-9]*(\.[a-z][a-z0-9]*)*(\.\*)?$` with the flag `i`, as the
-- automaton that reads it: at the start of a segment, at the start of a later segment (where a
-- final `*` may stand), or inside a segment.
abbrev is_end : String → Bool
is_end [] = true
is_end (c ∷ s) = false

unfoldable mutual
  pub segment_start : Bool → String → Bool
  segment_start later [] = false
  segment_start later (c ∷ s) =
      (is_letter (code c) && in_segment s) || (later && (code c == b'*') && is_end s)

  pub in_segment : String → Bool
  in_segment [] = true
  in_segment (c ∷ s) =
      (is_alnum (code c) && in_segment s) || ((code c == b'.') && segment_start true s)

unfoldable pub is_valid_permission : String → Bool
unfolding segment_start in_segment is_letter is_alnum
is_valid_permission value = value === "*" || segment_start false value
