-- ===== src/Worker/Endings.antt =====
-- A text that `_normalize_config` of src/kiroku/worker/scrapli_runner.py made has no carriage
-- returns, and so `stage` of src/kiroku/recorder/git_store.py finds it again.
use Prim.Native.Char.{Char, code}
use Prim.Native.String.{◌++◌ as ◌<>◌}
use Prim.Native.String.append
use bmu.Prelude.{ℕ, String, ◌≡◌, refl, ap, sym, subst, Bool, false, List, [], ◌∷◌, map, All, arith}
use bmu.Prelude.{if◌then◌else◌, ◌==◌, nat_eq, Bool-cases, inl, inr, ◌&&◌}
use bmu.Text.{
  is_empty, is_space, is_break, push, rstrip, lines_from, splitlines, join, newlines_from,
  universal_newlines,
}
use bmu.Runtime.{Runtime}
use bmu.Recorder.Store.{Git, Store, stage}
use bmu.Recorder.Staging.{stage_again}
use bmu.Worker.Normalize.{ansi_escape, drop_blank_end, normalize_config}

-- No carriage return.
abbrev pub IsPlain : String → Type 0
IsPlain String.[] = Unit
IsPlain (String.◌∷◌ c s) = ((code c == 13) ≡ false) × IsPlain s

append-IsPlain : (a b : String) → IsPlain a → IsPlain b → IsPlain (a <> b)
append-IsPlain String.[] b pa pb = subst IsPlain (sym (append.nil b)) pb
append-IsPlain (String.◌∷◌ c s) b pa pb =
    subst IsPlain (sym (append.cons c s b)) (pa.0, append-IsPlain s b pa.1 pb)

push-IsPlain :
    (c : Char) (ls : List String)
    → (code c == 13) ≡ false
    → All IsPlain ls
    → All IsPlain (push c ls)
push-IsPlain c [] h ps = ((h, tt), tt)
push-IsPlain c (l ∷ ls) h ps = ((h, ps.0), ps.1)

not_break : (c : ℕ) → is_break c ≡ false → (c == 13) ≡ false
unfolding is_break
not_break c h = ground (arith, h)

pub lines_from-IsPlain : (b : Bool) (s : String) → All IsPlain (lines_from b s)
unfolding lines_from
lines_from-IsPlain b String.[] = tt
lines_from-IsPlain b (String.◌∷◌ c s) =
    let rest = lines_from-IsPlain (code c == 13) s in
    elim (Bool-cases (b && code c == 10)) [
      | inl pair ↦ rw pair rest
      | inr other ↦ elim (Bool-cases (is_break (code c))) [
        | inl ends ↦ rw (other, ends) (tt, rest)
        | inr inside ↦ rw (other, inside) (push-IsPlain c _ (not_break (code c) inside) rest)
      ]
    ]

rstrip-IsPlain : (s : String) → IsPlain s → IsPlain (rstrip s)
unfolding rstrip
rstrip-IsPlain String.[] p = tt
rstrip-IsPlain (String.◌∷◌ c s) p = elim (Bool-cases (is_empty (rstrip s) && is_space (code c))) [
  | inl gone ↦ rw gone tt
  | inr kept ↦ rw kept (p.0, rstrip-IsPlain s p.1)
]

map-IsPlain : (ls : List String) → All IsPlain ls → All IsPlain (map rstrip ls)
map-IsPlain [] ps = tt
map-IsPlain (l ∷ ls) ps = (rstrip-IsPlain l ps.0, map-IsPlain ls ps.1)

drop_blank_end-IsPlain : (ls : List String) → All IsPlain ls → All IsPlain (drop_blank_end ls)
unfolding drop_blank_end
drop_blank_end-IsPlain [] ps = tt
drop_blank_end-IsPlain (l ∷ ls) ps = go (drop_blank_end ls) (drop_blank_end-IsPlain ls ps.1)
  where
    go :
        (rest : List String)
        → All IsPlain rest
        → All IsPlain (elim rest [ [] ↦ if is_empty l then [] else l ∷ [] | r ∷ rs ↦ l ∷ r ∷ rs ])
    go [] qs = elim (Bool-cases (is_empty l)) [
      | inl blank ↦ rw blank tt
      | inr full ↦ rw full (ps.0, tt)
    ]
    go (r ∷ rs) qs = (ps.0, qs)

pub join-IsPlain : (ls : List String) → All IsPlain ls → IsPlain (join "\n" ls)
unfolding join
join-IsPlain [] ps = tt
join-IsPlain (l ∷ []) ps = ps.0
join-IsPlain (l ∷ m ∷ ls) ps =
    append-IsPlain l _ ps.0 (append-IsPlain "\n" _ (refl, tt) (join-IsPlain (m ∷ ls) ps.1))

pub normalize_config-IsPlain : (py : Runtime) (text : String) → IsPlain (normalize_config py text)
unfolding normalize_config splitlines
normalize_config-IsPlain py text = join-IsPlain _ (
    drop_blank_end-IsPlain _ (
      map-IsPlain _
        (lines_from-IsPlain false (universal_newlines (py.re_sub ansi_escape "" text)))))

pub newlines_from-IsPlain : (s : String) → IsPlain s → newlines_from false s ≡ s
unfolding newlines_from
newlines_from-IsPlain String.[] p = refl
newlines_from-IsPlain (String.◌∷◌ c s) p =
    rw p.0 (ap (λ t. String.◌∷◌ c t) (newlines_from-IsPlain s p.1))

-- A backup that the worker has normalised, staged twice: the second time finds it unchanged, and
-- leaves the store as it is, whatever the device sent.
pub stage_normalized :
    (git : Git) (py : Runtime) (s : Store git) (group device text : String)
    → let content = normalize_config py text in
      stage git (stage git s group device content).store group device content ≡ record {
        changed = false;
        sha = git.sha256 content;
        store = (stage git s group device content).store;
      }
unfolding universal_newlines
stage_normalized git py s group device text =
    stage_again git s group device (normalize_config py text)
      (newlines_from-IsPlain (normalize_config py text) (normalize_config-IsPlain py text))
