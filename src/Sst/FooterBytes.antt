-- ===== src/Sst/FooterBytes.antt =====
-- The footer of a table: what `finish` writes, and what `open` reads.
use cdoc.Prelude.{ℕ, ◌^◌, ◌<◌, ◌≡◌, refl, sym, ap, ◌∙◌, [], length, take, length-append, append-nil}
use cdoc.Varint.LittleEndian.{le_bytes, length-le_bytes, of_le-le_bytes}
use cdoc.Varint.BigEndian.{length-be_bytes, of_be-be_bytes, take-be_bytes, drop-be_bytes}
use cdoc.Zerocopy.{Zerocopy}
use cdoc.Sst.{footer_size, Footer, footer_bytes, read_footer}
use cdoc.Sst.Block.{take-le_bytes, drop-le_bytes}

-- The values have the widths of the fields.
pub record IsFooter (f : Footer) : Type 0 where
  pub index_offset_u64 : f.index_offset < 2 ^ 64
  pub bloom_offset_u64 : f.bloom_offset < 2 ^ 64
  pub min_timestamp_u64 : f.min_timestamp < 2 ^ 64
  pub max_timestamp_u64 : f.max_timestamp < 2 ^ 64
  pub entry_count_u64 : f.entry_count < 2 ^ 64
  pub version_u32 : f.version < 2 ^ 32
  pub checksum_u32 : f.checksum < 2 ^ 32

take_all : (w n : ℕ) → take w (le_bytes w n) ≡ le_bytes w n
take_all w n = ap (take w) (sym (append-nil (le_bytes w n))) ∙ take-le_bytes w n []

pub read_footer-footer_bytes :
    (z : Zerocopy) (f : Footer) → IsFooter f → read_footer (footer_bytes z f) ≡ f
unfolding read_footer footer_bytes
read_footer-footer_bytes z f h = rw (z.as_bytes_lem 8 f.min_timestamp) (
    rw (z.as_bytes_lem 8 f.max_timestamp) (
      simp (take-le_bytes, drop-le_bytes, take-be_bytes, drop-be_bytes, take_all)
        (rw (of_le-le_bytes 8 f.index_offset h.index_offset_u64) (
          rw (of_le-le_bytes 8 f.bloom_offset h.bloom_offset_u64) (
            rw (of_be-be_bytes 8 f.min_timestamp h.min_timestamp_u64) (
              rw (of_be-be_bytes 8 f.max_timestamp h.max_timestamp_u64) (
                rw (of_le-le_bytes 8 f.entry_count h.entry_count_u64) (
                  rw (of_le-le_bytes 4 f.version h.version_u32)
                    (rw (of_le-le_bytes 4 f.checksum h.checksum_u32) refl)))))))))

pub length-footer_bytes : (z : Zerocopy) (f : Footer) → length (footer_bytes z f) ≡ footer_size
unfolding footer_bytes
length-footer_bytes z f =
    rw (z.as_bytes_lem 8 f.min_timestamp) (
      rw (z.as_bytes_lem 8 f.max_timestamp)
        (simp (length-append, length-le_bytes, length-be_bytes)))
