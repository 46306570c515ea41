-- ===== src/Sshcompat/Insert.antt =====
-- `InsertBeforeTarget` keeps the meaning of the command line.
use sshx.Prelude.{
  ℕ, zero, suc, ◌+◌, ◌-◌, ◌<◌, ◌≤◌, ◌≡◌, refl, sym, ap, ◌⊎◌, Bool, true, false, ◌||◌, some, List,
  [], ◌∷◌, ◌++◌, length, length-append, append_assoc, eq_refl, take-append_length,
  drop-append_length, get_elem?, ltb, if◌then◌else◌, ◌==◌, bytes_eq, arith, inl, inr, All,
}
use sshx.Prelude.Text.{Bytes}
use sshx.Sshcompat.{takes_value, is_target, dashes, parse, insert_at, insert_before_target}
use sshx.Sshcompat.Grammar.{IsOption, Finds, bare, dashed, Options, done, Finds-Options}
use sshx.Sshcompat.Parse.{Finds-cast, target_index-parse}
use sshx.Sshcompat.Scan.{Finds-nil}

-- Whether an option before the destination has the value `--`.
unfoldable pub has_dash_value : List Bytes → Bool
has_dash_value [] = false
has_dash_value (a ∷ []) = false
has_dash_value (a ∷ v ∷ rest) =
    let skip_value = v == dashes || has_dash_value rest in
    let next = has_dash_value (v ∷ rest) in
    if a == dashes || is_target a then false else if takes_value a then skip_value else next

abbrev NotDashes : Bytes → Type 0
NotDashes a = (a == dashes) ≡ false

-- A command line cut where the options end.
record Cut (args : List Bytes) (i : ℕ) (t : Bytes) (cmd : List Bytes) : Type 0 where
  opts : List Bytes
  tail : List Bytes
  splits : args ≡ opts ++ tail
  options : Options opts
  clean : All NotDashes opts
  starts :
      ((i ≡ length opts) × (tail ≡ t ∷ cmd) × (is_target t ≡ true) × NotDashes t)
      ⊎ ((d : Bytes) × (i ≡ length opts + 1) × (tail ≡ d ∷ t ∷ cmd) × ((d == dashes) ≡ true))

Cut-Finds :
    {args cmd : List Bytes} {i : ℕ} {t : Bytes}
    → Finds args i t cmd
    → has_dash_value args ≡ false
    → Cut args i t cmd
unfolding has_dash_value
Cut-Finds (bare {t} {cmd} p q) h = record {
  opts = [];
  tail = t ∷ cmd;
  splits = refl;
  options = done;
  clean = tt;
  starts = inl (refl, refl, q, p);
}
Cut-Finds (dashed {d} {t} {cmd} p) h = record {
  opts = [];
  tail = d ∷ t ∷ cmd;
  splits = refl;
  options = done;
  clean = tt;
  starts = inr (d, omega arith, refl, p);
}
Cut-Finds (Finds.flag {a} {rest = []} o q f) h = absurd (Finds-nil f)
Cut-Finds (Finds.flag {a} {rest = r ∷ rest} o q f) h =
    let c = Cut-Finds f (ground arith) in
    record {
      opts = a ∷ c.opts;
      tail = c.tail;
      splits = ap (◌∷◌ a) {y = c.opts ++ c.tail} c.splits;
      options = Options.flag o q c.options;
      clean = (o.not_dashes, c.clean);
      starts = ground (arith, c.starts);
    }
Cut-Finds (Finds.pair {a} {v} {rest} o q f) h =
    let c = Cut-Finds f (ground arith) in
    record {
      opts = a ∷ v ∷ c.opts;
      tail = c.tail;
      splits = ap (λ xs. a ∷ v ∷ xs) {y = c.opts ++ c.tail} c.splits;
      options = Options.pair o q c.options;
      clean = (o.not_dashes, (ground arith, c.clean));
      starts = ground (arith, c.starts);
    }

get_elem?-clean :
    (opts tail : List Bytes) (k : ℕ)
    → All NotDashes opts
    → k < length opts
    → (o : Bytes) × (get_elem? (opts ++ tail) k ≡ some o) × NotDashes o
get_elem?-clean [] tail k h lt = elim lt [ ]
get_elem?-clean (a ∷ opts) tail zero h lt = (a, refl, h.0)
get_elem?-clean (a ∷ opts) tail (suc k) h lt = get_elem?-clean opts tail k h.1 (omega arith)

get_elem?-length :
    (opts tail : List Bytes) (d : Bytes) → get_elem? (opts ++ d ∷ tail) (length opts) ≡ some d
get_elem?-length [] tail d = refl
get_elem?-length (a ∷ opts) tail d = get_elem?-length opts tail d

insert_at-length :
    (opts tail : List Bytes)
    → All NotDashes opts
    → insert_at (opts ++ tail) (length opts) ≡ length opts
unfolding insert_at
insert_at-length [] [] h = ground arith
insert_at-length [] (t ∷ tail) h = ground arith
insert_at-length (a ∷ opts) tail h =
    let (o, e, n) = get_elem?-clean (a ∷ opts) tail (suc (length opts) - 1) h (omega arith) in
    rw (insert_at, e) (ground arith)

insert_at_dashed :
    (opts tail : List Bytes) (d : Bytes)
    → (d == dashes) ≡ true
    → insert_at (opts ++ d ∷ tail) (length opts + 1) ≡ length opts
unfolding insert_at
insert_at_dashed opts tail d h =
    let p : length opts + 1 - 1 ≡ length opts = omega arith in
    rw (insert_at, p, get_elem?-length opts tail d, h) (ground arith)

insert_at-Cut :
    {args cmd : List Bytes} {i : ℕ} {t : Bytes} (c : Cut args i t cmd)
    → (insert_at args i ≡ length c.opts) × (ltb (length args) i ≡ false)
insert_at-Cut {args} {cmd} {i} {t} c = elim c.starts [
  | inl (e, s, _, _) ↦
      rw (c.splits, e)
        (insert_at-length c.opts c.tail c.clean, ground (arith, length-append c.opts c.tail))
  | inr (d, e, s, h) ↦
      rw (c.splits, e, s)
        (insert_at_dashed c.opts (t ∷ cmd) d h, ground (arith, length-append c.opts (d ∷ t ∷ cmd)))
]

Finds-Cut :
    {args cmd : List Bytes} {i : ℕ} {t : Bytes} (c : Cut args i t cmd)
    → (k : ℕ) × (i ≡ length c.opts + k) × Finds c.tail k t cmd × (k ≤ 1)
Finds-Cut c = elim c.starts [
  | inl (e, s, p, n) ↦ (0, omega arith, Finds-cast (sym s) refl refl refl (bare n p), omega arith)
  | inr (d, e, s, h) ↦ (1, omega arith, Finds-cast (sym s) refl refl refl (dashed h), omega arith)
]

-- Options put in by `InsertBeforeTarget` leave the destination and the remote command of the command
-- line as they were: the grammar finds them in the new list, as far behind as there are new words.
-- This holds for complete options, where no option before the destination has the value `--`.
pub insert_before_target-Finds :
    (args new : List Bytes) (i : ℕ) (t : Bytes) (cmd : List Bytes)
    → Finds (parse args).args i t cmd
    → has_dash_value (parse args).args ≡ false
    → Options new
    → Finds (insert_before_target (parse args) new) (length new + i) t cmd
unfolding insert_before_target
insert_before_target-Finds args new i t cmd f h o =
    let c = Cut-Finds f h in
    let (at, le) = insert_at-Cut c in
    let (k, e, g, one) = Finds-Cut c in
    let index : (parse args).target_index ≡ some i = target_index-parse args f in
    rw (index, le, at, c.splits, take-append_length, drop-append_length)
      (Finds-cast refl (omega arith) refl refl (Finds-Options c.options (Finds-Options o g)))

-- Where the new words go: behind complete options, and before the destination or the `--` of it.
pub insert_before_target-parts :
    (args new : List Bytes) (i : ℕ) (t : Bytes) (cmd : List Bytes)
    → Finds (parse args).args i t cmd
    → has_dash_value (parse args).args ≡ false
    → (before : List Bytes) × (after : List Bytes) × (k : ℕ) × ((parse args).args ≡ before ++ after)
      × (insert_before_target (parse args) new ≡ before ++ (new ++ after))
      × Options before
      × Finds after k t cmd
      × (k ≤ 1)
unfolding insert_before_target
insert_before_target-parts args new i t cmd f h =
    let c = Cut-Finds f h in
    let (at, le) = insert_at-Cut c in
    let (k, e, g, one) = Finds-Cut c in
    let index : (parse args).target_index ≡ some i = target_index-parse args f in
    (
      c.opts,
      c.tail,
      k,
      c.splits,
      rw (index, le, at, c.splits, take-append_length, drop-append_length),
      c.options,
      g,
      one,
    )

insert_at_behind :
    (before cmd : List Bytes) (a t : Bytes)
    → insert_at (before ++ a ∷ dashes ∷ t ∷ cmd) (length before + 2) ≡ length before + 1
insert_at_behind before cmd a t =
    let e : (before ++ a ∷ []) ++ dashes ∷ t ∷ cmd ≡ before ++ a ∷ dashes ∷ t ∷ cmd =
      append_assoc before (a ∷ []) (dashes ∷ t ∷ cmd) in
    let l : length (before ++ a ∷ []) ≡ length before + 1 =
      omega (arith, length-append before (a ∷ [])) in
    let two : length before + 1 + 1 ≡ length before + 2 = omega arith in
    rw (e, l, two) at (insert_at_dashed (before ++ a ∷ []) (t ∷ cmd) dashes (eq_refl dashes))

-- Where the destination follows an option whose value is `--`, behind other complete options, the new
-- words come between that option and its value.
pub insert_before_target_splits :
    (args new before cmd : List Bytes) (a t : Bytes)
    → Options before
    → IsOption a
    → takes_value a ≡ true
    → is_target t ≡ true
    → (t == dashes) ≡ false
    → (parse args).args ≡ before ++ a ∷ dashes ∷ t ∷ cmd
    → insert_before_target (parse args) new ≡ before ++ a ∷ (new ++ dashes ∷ t ∷ cmd)
unfolding insert_before_target
insert_before_target_splits args new before cmd a t os o v p n e =
    let whole : before ++ a ∷ dashes ∷ t ∷ cmd ≡ (before ++ a ∷ []) ++ dashes ∷ t ∷ cmd =
      sym (append_assoc before (a ∷ []) (dashes ∷ t ∷ cmd)) in
    let l : length before + 1 ≡ length (before ++ a ∷ []) =
      omega (arith, length-append before (a ∷ [])) in
    let index : (parse args).target_index ≡ some (length before + 2) = target_index-parse args (
      Finds-cast (sym e) refl refl refl
        (Finds-Options os (Finds.pair {v = dashes} o v (bare n p)))) in
    let inside : ltb (length (before ++ a ∷ dashes ∷ t ∷ cmd)) (length before + 2) ≡ false =
      ground (arith, length-append before (a ∷ dashes ∷ t ∷ cmd)) in
    rw (index, e, inside, insert_at_behind before cmd a t)
      (rw (
        whole,
        l,
        take-append_length,
        drop-append_length,
        append_assoc before (a ∷ []) (new ++ dashes ∷ t ∷ cmd),
      ))
