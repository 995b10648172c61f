-- ===== src/Status/Rcvbuf.antt =====
-- Reading /proc/net/snmp as the kernel prints it.
use bvex_vdif_rfsoc.Base.{
  ℕ, ◌^◌, ◌<◌, ◌≡◌, refl, ap, ap₂, ◌∙◌, List, [], ◌∷◌, ◌++◌, true, false, drop, take, some,
  if◌then◌else◌, if-true, if-false, arith,
}
use bvex_vdif_rfsoc.Text.{Bytes, codes, same, is_digit, split, tokens}
use bvex_vdif_rfsoc.Text.Numbers.{decimal, strtoull-decimal, decimal-IsToken}
use bvex_vdif_rfsoc.Text.Tokens.{IsToken, AllTokens, joined, tokens-joined}
use bvex_vdif_rfsoc.Status.{is_blank, find_value, scan_lines, udp_rcvbuf_errors}

-- A counter with its name.
abbrev pub Counter : Type 0
Counter = Bytes × ℕ

abbrev pub AreCounters : List Counter → Type 0
AreCounters [] = Unit {0}
AreCounters (c ∷ cs) = IsToken is_blank c.0 × (c.1 < 2 ^ 64) × AreCounters cs

-- The two lines of a protocol: its name and the counters' names, its name and their values.
abbrev pub names : List Counter → List Bytes
names [] = []
names (c ∷ cs) = c.0 ∷ names cs

abbrev pub values : List Counter → List Bytes
values [] = []
values (c ∷ cs) = decimal c.1 ∷ values cs

abbrev pub line : List Bytes → Bytes
line ws = joined 32 (codes "Udp:" ∷ ws) (10 ∷ [])

-- The value of the first counter of that name.
pub value_of : List Counter → ℕ
value_of [] = 0
value_of (c ∷ cs) = if same c.0 (codes "RcvbufErrors") then c.1 else value_of cs

-- Lines of other protocols.
abbrev pub AllOthers : List Bytes → Type 0
AllOthers [] = Unit {0}
AllOthers (l ∷ ls) = (same (take 4 l) (codes "Udp:") ≡ false) × AllOthers ls

names-AllTokens : (cs : List Counter) → AreCounters cs → AllTokens is_blank (names cs)
names-AllTokens [] a = tt
names-AllTokens (c ∷ cs) a = (a.0, names-AllTokens cs a.2)

digit_no_blank : (c : ℕ) → is_digit c ≡ true → is_blank c ≡ false
digit_no_blank c h = ground arith

values-AllTokens : (cs : List Counter) → AllTokens is_blank (values cs)
values-AllTokens [] = tt
values-AllTokens (c ∷ cs) = (decimal-IsToken is_blank digit_no_blank c.1, values-AllTokens cs)

find_value-names :
    (cs : List Counter) → AreCounters cs → find_value (names cs) (values cs) ≡ value_of cs
unfolding find_value value_of
find_value-names [] a = refl
find_value-names (c ∷ cs) a = ground (arith, strtoull-decimal c.1 a.1, find_value-names cs a.2)

line-tokens : (ws : List Bytes) → AllTokens is_blank ws → drop 1 (tokens is_blank (line ws)) ≡ ws
unfolding tokens split
line-tokens ws a = ap (drop 1) (
    tokens-joined is_blank 32 (codes "Udp:" ∷ ws) (10 ∷ []) refl
      ((refl, (refl, (refl, (refl, tt)))), a) refl refl)

scan_lines-others :
    (others lines : List Bytes) → AllOthers others → scan_lines (others ++ lines) ≡ scan_lines lines
unfolding scan_lines
scan_lines-others [] lines a = refl
scan_lines-others (l ∷ ls) lines a =
    if-false (same (take 4 l) (codes "Udp:")) _ _ a.0 ∙ scan_lines-others ls lines a.1

line_is_udp : (ws : List Bytes) → same (take 4 (line ws)) (codes "Udp:") ≡ true
unfolding same
line_is_udp [] = refl
line_is_udp (w ∷ ws) = refl

-- Behind lines of other protocols, the names and values of the UDP counters as the kernel prints
-- them read back as the value of the first counter that is named `RcvbufErrors`, 0 without one.
pub udp_rcvbuf_errors-line :
    (others : List Bytes) (cs : List Counter) (more : List Bytes)
    → AllOthers others
    → AreCounters cs
    → udp_rcvbuf_errors (some (others ++ line (names cs) ∷ line (values cs) ∷ more)) ≡ value_of cs
unfolding udp_rcvbuf_errors scan_lines
udp_rcvbuf_errors-line others cs more o a =
    scan_lines-others others (line (names cs) ∷ line (values cs) ∷ more) o
    ∙ if-true (same (take 4 (line (names cs))) (codes "Udp:")) _ _ (line_is_udp (names cs))
    ∙ ap₂ find_value (line-tokens (names cs) (names-AllTokens cs a))
        (line-tokens (values cs) (values-AllTokens cs))
    ∙ find_value-names cs a
