-- ===== src/Sst/Directory/Names.antt =====
-- The names of the tables' files: their extensions and their order.
use cdoc.Prelude.{
  ◌<◌, [], ◌∷◌, ◌++◌, Bytes, length, length-append, Option, none, some, true, false, not, ◌≡◌, refl,
  ◌∙◌, ap, arith, is_eq, cmp, eq_of_cmp, ◌≺◌,
}
use cdoc.Hlc.{Timestamp}
use cdoc.Hlc.Display.{Display}
use cdoc.Sst.Directory.{
  dot, sst_extension, tmp_extension, rsplit_dot, behind_stem, is_some_of, has_extension, final_path,
  tmp_path,
}

rsplit_dot-append :
    (stem ext : Bytes) → rsplit_dot ext ≡ none → rsplit_dot (stem ++ dot ∷ ext) ≡ some (stem, ext)
unfolding rsplit_dot
rsplit_dot-append [] ext h = rw h refl
rsplit_dot-append (b ∷ stem) ext h = rw (rsplit_dot-append stem ext h) refl

behind_stem-some : (stem ext : Bytes) → 0 < length stem → behind_stem (some (stem, ext)) ≡ some ext
behind_stem-some [] ext h = absurd (omega arith)
behind_stem-some (b ∷ stem) ext h = refl

has_extension-append :
    (e stem ext : Bytes)
    → 0 < length stem
    → rsplit_dot ext ≡ none
    → has_extension e (stem ++ dot ∷ ext) ≡ is_eq (cmp ext e)
unfolding has_extension
has_extension-append e stem ext h n =
    ap (λ o. is_some_of e (behind_stem o)) (rsplit_dot-append stem ext n)
    ∙ ap (is_some_of e) (behind_stem-some stem ext h)

-- A file has one extension.
is_some_of_unique :
    (o : Option Bytes) → is_some_of sst_extension o ≡ true → not (is_some_of tmp_extension o) ≡ true
is_some_of_unique none h = refl
is_some_of_unique (some e) h = unfold cmp in rw (eq_of_cmp e sst_extension (ground (arith, h))) refl

pub sst_not_tmp :
    (name : Bytes)
    → has_extension sst_extension name ≡ true
    → not (has_extension tmp_extension name) ≡ true
unfolding has_extension
sst_not_tmp name h = is_some_of_unique (behind_stem (rsplit_dot name)) h

module _ (d : Display) where
  length-final_path : (ts : Timestamp) → 0 < length (final_path d.fmt ts)
  unfolding final_path
  length-final_path ts =
      omega (arith, length-append (d.fmt ts) (dot ∷ sst_extension), d.fmt_some ts)

  pub final_path_sst : (ts : Timestamp) → has_extension sst_extension (final_path d.fmt ts) ≡ true
  unfolding final_path rsplit_dot cmp
  final_path_sst ts =
      has_extension-append sst_extension (d.fmt ts) sst_extension (d.fmt_some ts) refl

  pub tmp_path_tmp : (ts : Timestamp) → has_extension tmp_extension (tmp_path d.fmt ts) ≡ true
  unfolding tmp_path rsplit_dot cmp
  tmp_path_tmp ts =
      has_extension-append tmp_extension (final_path d.fmt ts) tmp_extension (length-final_path ts)
        refl

  pub tmp_path_not_sst : (ts : Timestamp) → has_extension sst_extension (tmp_path d.fmt ts) ≡ false
  unfolding tmp_path rsplit_dot cmp
  tmp_path_not_sst ts =
      has_extension-append sst_extension (final_path d.fmt ts) tmp_extension (length-final_path ts)
        refl

  -- The names stand in the order of the timestamps.
  pub final_path_lt :
      (a b : Timestamp) → a < b → b < d.limit → final_path d.fmt a ≺ final_path d.fmt b
  unfolding final_path
  final_path_lt a b h l = d.fmt_lt a b (dot ∷ sst_extension) (dot ∷ sst_extension) h l
