-- ===== src/Advisor/Rebuild.antt =====
-- The inner loop of `neutralize_action_language` on a text of ASCII characters.
use Prim.Native.String.{◌++◌}
use text.Mathlib.TextLemmas.{append_assoc}
use stellartrace.Prelude.{
  ℕ, zero, suc, ◌+◌, ◌<◌, ◌≡◌, false, Option, none, some, String, arith, ap, sym, subst,
}
use stellartrace.Prelude.Outcome.{Run, done, Returns, Returns-bind}
use stellartrace.Prelude.Substring.{
  byte_len, char_count, find?, contains_str, split_at, IsAscii, ascii_lowercase,
}
use stellartrace.Prelude.Substring.Append.{EachChar-parts}
use stellartrace.Prelude.Substring.Positions.{
  len_utf8_pos, split_at-append, split_at-shorter, byte_len-append,
}
use stellartrace.Prelude.Substring.Occurrence.{find?-IsFound, find?-eq_none, starts_with-parts}
use stellartrace.Platform.{Unicode, IsUnicode}
use stellartrace.Advisor.Sanitize.{rebuild, pushed, neutralized, before, behind}
use stellartrace.Advisor.Neutral.{IsMarker, IsRewritten, replaced, kept_whole}

-- The parts of an ASCII text at the first occurrence of a marker, as the code slices it.
record IsCut (m s : String) (pos : ℕ) : Type 0 where
  pub kept : String
  pub dropped : String
  pub next : String
  pub whole : kept ++ (dropped ++ next) ≡ s
  pub kept_slice : before (split_at s pos) ≡ done kept
  pub next_slice : behind (split_at s (pos + byte_len m)) ≡ done next
  pub first : contains_str (ascii_lowercase kept) m ≡ false
  pub shorter : char_count next < char_count s

IsCut-of :
    (m kept dropped next s : String) (pos : ℕ)
    → kept ++ (dropped ++ next) ≡ s
    → byte_len kept ≡ pos
    → byte_len dropped ≡ byte_len m
    → 0 < byte_len m
    → contains_str (ascii_lowercase kept) m ≡ false
    → IsCut m s pos
IsCut-of m kept dropped next s pos whole size dropped_size nonempty first =
    let end : byte_len (kept ++ dropped) ≡ pos + byte_len m =
      omega (arith, byte_len-append kept dropped) in
    let front : split_at s pos ≡ some (kept, dropped ++ next) =
      rw (← whole, ← size) (split_at-append kept (dropped ++ next)) in
    let rear : split_at s (pos + byte_len m) ≡ some (kept ++ dropped, next) =
      rw (← whole, ← end, ← append_assoc kept dropped next)
        (split_at-append (kept ++ dropped) next) in
    record {
      kept = kept;
      dropped = dropped;
      next = next;
      whole = whole;
      kept_slice = ap before front;
      next_slice = ap behind rear;
      first = first;
      shorter = split_at-shorter s (pos + byte_len m) (kept ++ dropped) next rear (omega arith);
    }

marker_pos : {m : String} → IsMarker m → 0 < byte_len m
unfolding byte_len
marker_pos marker = rw marker.spelled (omega (arith, len_utf8_pos marker.initial))

IsCut-at :
    (m s : String) (pos : ℕ)
    → IsMarker m
    → IsAscii s
    → find? (ascii_lowercase s) m ≡ some pos
    → IsCut m s pos
IsCut-at m s pos marker ascii h =
    let found = find?-IsFound marker.initial marker.others s pos ascii (rw marker.spelled at h) in
    let starts = rw (← marker.spelled) at found.occurs in
    let ascii_from = (EachChar-parts _ found.before found.from (rw (← found.whole) at ascii)).1 in
    let (dropped, next, parts, size) = starts_with-parts m found.from ascii_from starts in
    IsCut-of m found.before dropped next s pos (rw parts found.whole) found.size size
      (marker_pos marker) (rw marker.spelled found.first)

abbrev Later : String → String → (String → Run String) → Type 0
Later m rest again =
    (next : String)
    → IsAscii next
    → char_count next < char_count rest
    → Returns (IsRewritten m next) (again next)

pushed_cut :
    (m rest : String) (pos : ℕ) (again : String → Run String)
    → IsMarker m
    → IsAscii rest
    → IsCut m rest pos
    → Later m rest again
    → Returns (IsRewritten m rest) (pushed (some pos) m rest again)
pushed_cut m rest pos again marker ascii cut later =
    let ascii_whole = rw (← cut.whole) at ascii in
    let ascii_next =
      (EachChar-parts _ cut.dropped cut.next
        (EachChar-parts _ cut.kept (cut.dropped ++ cut.next) ascii_whole).1).1 in
    let result : (out : String)
        → IsRewritten m cut.next out
        → IsRewritten m rest (cut.kept ++ (neutralized ++ out)) =
      λ out rewritten.
        subst (λ s. IsRewritten m s (cut.kept ++ (neutralized ++ out))) cut.whole
          (replaced m cut.kept cut.dropped cut.next out marker ascii_whole cut.first rewritten) in
    rw (cut.kept_slice, cut.next_slice)
      (Returns-bind (IsRewritten m cut.next) (IsRewritten m rest) (again cut.next) _
        (later cut.next ascii_next cut.shorter) result)

module _ ⦃unicode : Unicode⦄ (laws : IsUnicode) where
  pushed-IsRewritten :
      (m rest : String) (again : String → Run String) (found : Option ℕ)
      → IsMarker m
      → IsAscii rest
      → find? (ascii_lowercase rest) m ≡ found
      → Later m rest again
      → Returns (IsRewritten m rest) (pushed found m rest again)
  pushed-IsRewritten m rest again none marker ascii e later =
      kept_whole m rest ascii (find?-eq_none (ascii_lowercase rest) m e)
  pushed-IsRewritten m rest again (some pos) marker ascii e later =
      pushed_cut m rest pos again marker ascii (IsCut-at m rest pos marker ascii e) later

  pub rebuild-IsRewritten :
      (fuel : ℕ) (m rest : String)
      → IsMarker m
      → IsAscii rest
      → char_count rest < fuel
      → Returns (IsRewritten m rest) (rebuild fuel m rest)
  unfolding rebuild
  rebuild-IsRewritten zero m rest marker ascii h = absurd (omega arith)
  rebuild-IsRewritten (suc fuel) m rest marker ascii h =
      pushed-IsRewritten m rest (rebuild fuel m) _ marker ascii
        (ap (λ (t : String). find? t m) (sym (laws.ascii rest ascii)))
        (λ next ascii' shorter. rebuild-IsRewritten fuel m next marker ascii' (omega arith))
