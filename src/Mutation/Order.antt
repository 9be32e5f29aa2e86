-- ===== src/Mutation/Order.antt =====
-- src/mutation.rs: the order of segments, and the conversions to them.
use cdoc.Prelude.{
  Bytes, Bool, true, false, Ordering, eq, ◌≡◌, refl, sym, ap, ◌⊎◌, inl, inr, ◌↔◌, cmp, cmp_refl,
  eq_of_cmp,
}
use cdoc.Mutation.{Segment, fractional_index}

-- `as_ref`
unfoldable pub as_ref : Segment → Bytes
as_ref (Segment.field field) = field
as_ref (fractional_index index) = index

-- `Ord::cmp`
unfoldable pub cmp_segment : Segment → Segment → Ordering
unfolding as_ref
cmp_segment a b = cmp (as_ref a) (as_ref b)

-- `From` of strings, and of byte strings.
unfoldable pub from_string : Bytes → Segment
from_string s = Segment.field s

unfoldable pub from_bytes : Bytes → Segment
from_bytes value = fractional_index value

-- One is a field and the other an index.
abbrev pub is_field : Segment → Bool
is_field (Segment.field field) = true
is_field (fractional_index index) = false

cmp_segment-as_ref : (a b : Segment) → cmp_segment a b ≡ eq → as_ref a ≡ as_ref b
unfolding cmp_segment
cmp_segment-as_ref a b h = eq_of_cmp (as_ref a) (as_ref b) h

as_ref-cmp_segment : (a b : Segment) → as_ref a ≡ as_ref b → cmp_segment a b ≡ eq
unfolding cmp_segment
as_ref-cmp_segment a b h = rw h (cmp_refl (as_ref b))

-- The same segment, or two of different kinds with the same bytes.
abbrev pub AreTwins : Segment → Segment → Type 0
AreTwins a b =
    (a ≡ b)
    ⊎ ((◌≡◌ {A = Segment} a (from_string (as_ref a)) × (b ≡ from_bytes (as_ref a)))
        ⊎ ((a ≡ from_bytes (as_ref a)) × (b ≡ from_string (as_ref a))))

twins : (a b : Segment) → as_ref a ≡ as_ref b → AreTwins a b
unfolding as_ref from_string from_bytes
twins (Segment.field s) (Segment.field t) h = inl (ap (λ x. Segment.field x) h)
twins (Segment.field s) (fractional_index i) h =
    inr (inl (refl, ap (λ x. fractional_index x) (sym h)))
twins (fractional_index i) (Segment.field s) h = inr (inr (refl, ap (λ x. Segment.field x) (sym h)))
twins (fractional_index i) (fractional_index j) h = inl (ap (λ x. fractional_index x) h)

twins_same : (a b : Segment) → AreTwins a b → as_ref a ≡ as_ref b
unfolding as_ref from_string from_bytes
twins_same a b (inl e) = ap as_ref e
twins_same a b (inr (inl (f, e))) = sym (ap as_ref e)
twins_same a b (inr (inr (f, e))) = sym (ap as_ref e)

-- Two segments compare as equal exactly where they are the same segment, or a field and an index
-- with the same bytes.
pub cmp_segment-eq : (a b : Segment) → (cmp_segment a b ≡ eq) ↔ AreTwins a b
cmp_segment-eq a b =
    (λ h. twins a b (cmp_segment-as_ref a b h), λ h. as_ref-cmp_segment a b (twins_same a b h))
