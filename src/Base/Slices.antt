-- ===== src/Base/Slices.antt =====
-- What a slice of a text holds.
use Prim.Native.Nat.{ℕ, ◌+◌, ◌≤◌}
use mathlib.Core.Path.{◌≡◌, refl}
use mathlib.Core.List.{[], ◌∷◌, ◌++◌}
use native.Mathlib.Omega.{arith}
use tsqlremaker.Base.Strings.{Text, len_utf8, byte_len, slice_from, slice, len_utf8_bounds}

-- Nothing at or behind the end of the slice belongs to it.
slice_from_beyond : (k start stop : ℕ) (s : Text) → stop ≤ k → slice_from k start stop s ≡ []
unfolding slice_from
slice_from_beyond k start stop [] h = refl
slice_from_beyond k start stop (c ∷ s) h =
    ground (arith, slice_from_beyond (k + len_utf8 c) start stop s)

slice_from_inside :
    (k start stop : ℕ) (mid post : Text)
    → start ≤ k
    → stop ≡ k + byte_len mid
    → slice_from k start stop (mid ++ post) ≡ mid
unfolding slice_from byte_len
slice_from_inside k start stop [] post h e = slice_from_beyond k start stop post (omega arith)
slice_from_inside k start stop (c ∷ mid) post h e = ground (
  arith,
  len_utf8_bounds c,
  slice_from_inside (k + len_utf8 c) start stop mid post (omega arith) (omega arith),
)

slice_from_middle :
    (k start stop : ℕ) (pre mid post : Text)
    → start ≡ k + byte_len pre
    → stop ≡ start + byte_len mid
    → slice_from k start stop (pre ++ (mid ++ post)) ≡ mid
unfolding slice_from byte_len
slice_from_middle k start stop [] mid post b e =
    slice_from_inside k start stop mid post (omega arith) (omega arith)
slice_from_middle k start stop (c ∷ pre) mid post b e = ground (
  arith,
  len_utf8_bounds c,
  slice_from_middle (k + len_utf8 c) start stop pre mid post (omega arith) (omega arith),
)

-- The slice between two boundaries of a text is what stands between them.
pub slice-append :
    (pre mid post : Text)
    → slice (byte_len pre) (byte_len pre + byte_len mid) (pre ++ (mid ++ post)) ≡ mid
unfolding slice
slice-append pre mid post =
    slice_from_middle 0 (byte_len pre) (byte_len pre + byte_len mid) pre mid post (omega arith) refl
