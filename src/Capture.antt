-- ===== src/Capture.antt =====
-- The choices of host/crates/emersia-daemon/src/capture/mod.rs: `choose_backend`, `select_output` and
-- `pick_shm_format`. The Wayland protocol's objects are left out, and messages leave out what they
-- quote.
pub mod Chosen
use Prim.Native.String.{String}
use emersia.Base.{
  ℕ, zero, suc, ◌+◌, Bool, true, false, ◌||◌, Option, none, some, List, [], ◌∷◌, bytes_eq,
  if◌then◌else◌, Result, ok, err,
}
use emersia.Frame.Decode.{Format, argb8888, xrgb8888, xbgr8888, rgba8888, other_format}

pub data Backend : Type 0 where
  ext wlr : Backend

unfoldable pub protocol : Backend → String
protocol ext = "ext-image-copy-capture"
protocol wlr = "wlr-screencopy"

pub data BackendPref : Type 0 where
  automatic only_ext only_wlr : BackendPref

unfoldable pub choose_backend : BackendPref → (has_ext has_wlr : Bool) → Result String Backend
choose_backend only_ext true has_wlr = ok ext
choose_backend only_ext false has_wlr = err "--backend ext requested but not advertised"
choose_backend only_wlr has_ext true = ok wlr
choose_backend only_wlr has_ext false = err "--backend wlr requested but not advertised"
choose_backend automatic true has_wlr = ok ext
choose_backend automatic false true = ok wlr
choose_backend automatic false false = err "the compositor advertises neither"

-- `position(|l| l == name)`
unfoldable pub position : List ℕ → List (List ℕ) → Option ℕ
position name [] = none
position name (l ∷ ls) =
    let later = position name ls in
    if bytes_eq l name then some 0 else elim later [ none ↦ none | some i ↦ some (suc i) ]

unfoldable pub select_output : List (List ℕ) → Option (List ℕ) → Result String ℕ
unfolding position
select_output [] want = err "the compositor advertised no wl_output monitors"
select_output (l ∷ ls) none = ok 0
select_output (l ∷ ls) (some name) = elim (position name (l ∷ ls)) [
  | none ↦ err "no output of that name"
  | some i ↦ ok i
]

abbrev pub same_format : Format → Format → Bool
same_format argb8888 argb8888 = true
same_format xrgb8888 xrgb8888 = true
same_format xbgr8888 xbgr8888 = true
same_format rgba8888 rgba8888 = true
same_format _ _ = false

-- `contains`, of a supported format.
abbrev pub offers : Format → List Format → Bool
offers f [] = false
offers f (g ∷ gs) = same_format f g || offers f gs

abbrev pub preferred : List Format
preferred = xrgb8888 ∷ argb8888 ∷ xbgr8888 ∷ rgba8888 ∷ []

abbrev pub first_offered : List Format → List Format → Result String Format
first_offered [] formats = err "the compositor offered no supported shm format"
first_offered (f ∷ fs) formats = if offers f formats then ok f else first_offered fs formats

unfoldable pub pick_shm_format : List Format → Result String Format
pick_shm_format formats = first_offered preferred formats
