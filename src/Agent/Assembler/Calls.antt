-- ===== src/Agent/Assembler/Calls.antt =====
-- A call from its fragments: its name, its arguments and the order of their paths.
use mathlib.Core.List.{append_assoc, append-nil}
use harness_ai.Prelude.{
  ◌≡◌, refl, sym, ap, ◌∙◌, String, true, false, Bool-cases, inl, inr, Option, none, some,
  Option-cases, List, [], ◌∷◌, ◌++◌, is_some, not, Map, put, elem, All, str_eq, eq_iff, arith,
  if◌then◌else◌, ◌&&◌,
}
use harness_ai.Llm.{ProviderRaw, ToolCallDelta, StreamEvent}
use harness_ai.Agent.Assembler.{
  CallAcc, new_call, new_accumulator, raw_bytes, add_args, with_name, with_path, add_fragment,
  call_at,
}
use harness_ai.Agent.Assembler.Reference.{
  fragments, fragments_of, first_of, first_name, unaddressed, paths, last_at, call_of,
}
use harness_ai.Agent.Assembler.Absorb.{absorb, absorb-fragments, fold_fragments-calls, grow}

-- The paths that a call knows.
abbrev KnowsPaths : Map ProviderRaw → List String → Type 0
KnowsPaths m seen = (k : String) → is_some (m k) ≡ elem k seen

-- What a call is behind further fragments of it.
record IsExtended (c g : CallAcc) (seen : List String) (ds : List ToolCallDelta) : Type 0 where
  ids : g.id ≡ c.id
  names : g.name ≡ (if str_eq c.name "" then first_name ds else c.name)
  bufs : g.append_buf ≡ c.append_buf ++ unaddressed ds
  args : (k : String) → g.path_args k ≡ last_at k (c.path_args k) ds
  orders : g.path_order ≡ c.path_order ++ first_of seen (paths ds)

grown : CallAcc → List ToolCallDelta → CallAcc
unfolding add_fragment
grown c [] = c
grown c (d ∷ ds) = grown (add_fragment (some c) d) ds

name_step :
    (c n : String) (rest : String)
    → (if str_eq (if not (str_eq n "") && str_eq c "" then n else c) ""
        then rest
        else (if not (str_eq n "") && str_eq c "" then n else c))
      ≡ (if str_eq c "" then (if str_eq n "" then rest else n) else c)
name_step c n rest = ground arith

with_path-new :
    (order : List String) (m : Map ProviderRaw) (p : String)
    → m p ≡ none
    → with_path order m p ≡ order ++ (p ∷ [])
with_path-new order m p g = rw (g, with_path) refl

with_path-old :
    (order : List String) (m : Map ProviderRaw) (p : String) (r : ProviderRaw)
    → m p ≡ some r
    → with_path order m p ≡ order
with_path-old order m p r g = rw (g, with_path) refl

-- A call behind a fragment with a path.
abbrev addressed : CallAcc → ToolCallDelta → CallAcc
addressed c d = record (with_name c d.name) {
  path_order = with_path c.path_order c.path_args d.args_path;
  path_args = put c.path_args d.args_path d.args_fragment;
}

grown-IsExtended :
    (ds : List ToolCallDelta) (c : CallAcc) (seen : List String)
    → KnowsPaths c.path_args seen
    → IsExtended c (grown c ds) seen ds
unfolding grown add_args
grown-IsExtended [] c seen h = record {
  ids = refl;
  names = ground (arith, eq_iff c.name "");
  bufs = sym (append-nil c.append_buf);
  args = λ k. refl;
  orders = sym (append-nil c.path_order);
}
grown-IsExtended (d ∷ ds) c seen h = elim (Bool-cases (str_eq d.args_path "")) [
  | inl e ↦
      rw (e, add_args)
        (let ih =
            grown-IsExtended ds
              (record (with_name c d.name) {
                append_buf = c.append_buf ++ raw_bytes d.args_fragment;
              })
              seen h in
          record {
            ids = ih.ids;
            names = ih.names ∙ name_step c.name d.name (first_name ds);
            bufs =
                rw (e) (
                  ih.bufs ∙ append_assoc c.append_buf (raw_bytes d.args_fragment) (unaddressed ds));
            args = λ k. rw (e) (ih.args k);
            orders = rw (e) ih.orders;
          })
  | inr e ↦
      rw (e, add_args)
        (elim (Option-cases (c.path_args d.args_path)) [
          | inl g ↦
              let unseen : elem d.args_path seen ≡ false = sym (h d.args_path) ∙ ap is_some g in
              let ih = grown-IsExtended ds (addressed c d) (d.args_path ∷ seen) (λ k.
                elim (Bool-cases (str_eq d.args_path k)) [
                  | inl b ↦ rw (b) refl
                  | inr b ↦ rw (b) (h k)
                ]) in
              record {
                ids = ih.ids;
                names = ih.names ∙ name_step c.name d.name (first_name ds);
                bufs = rw (e) ih.bufs;
                args = λ k. rw (e) (ih.args k);
                orders =
                    rw (e, unseen)
                      (ih.orders
                        ∙ ap (λ o. o ++ first_of (d.args_path ∷ seen) (paths ds))
                            (with_path-new c.path_order c.path_args d.args_path g)
                        ∙ append_assoc c.path_order (d.args_path ∷ []) _);
              }
          | inr (r, g) ↦
              let known : elem d.args_path seen ≡ true = sym (h d.args_path) ∙ ap is_some g in
              let ih = grown-IsExtended ds (addressed c d) seen (λ k.
                elim (Bool-cases (str_eq d.args_path k)) [
                  | inl b ↦ rw (b) (sym known ∙ ap (λ x. elem x seen) ((eq_iff d.args_path k).0 b))
                  | inr b ↦ rw (b) (h k)
                ]) in
              record {
                ids = ih.ids;
                names = ih.names ∙ name_step c.name d.name (first_name ds);
                bufs = rw (e) ih.bufs;
                args = λ k. rw (e) (ih.args k);
                orders =
                    rw (e, known)
                      (ih.orders
                        ∙ ap (λ o. o ++ first_of seen (paths ds))
                            (with_path-old c.path_order c.path_args d.args_path r g));
              }
        ])
]

grow-grown : (ds : List ToolCallDelta) (c : CallAcc) → grow (some c) ds ≡ some (grown c ds)
unfolding grown
grow-grown [] c = refl
grow-grown (d ∷ ds) c = grow-grown ds (add_fragment (some c) d)

fragments_of-id :
    (id : String) (ds : List ToolCallDelta)
    → All (λ (d : ToolCallDelta). d.call_id ≡ id) (fragments_of id ds)
fragments_of-id id [] = tt
fragments_of-id id (d ∷ ds) = elim (Bool-cases (str_eq d.call_id id)) [
  | inl e ↦ rw (e) ((eq_iff d.call_id id).0 e, fragments_of-id id ds)
  | inr e ↦ rw (e) (fragments_of-id id ds)
]

abbrev or_new : String → Option CallAcc → CallAcc
or_new id none = new_call id
or_new id (some c) = c

abbrev from_fragments : String → List ToolCallDelta → CallAcc
from_fragments id fs = record {
  id = id;
  name = first_name fs;
  append_buf = unaddressed fs;
  path_args = λ k. last_at k none fs;
  path_order = first_of [] (paths fs);
}

extended-eq :
    (id : String) (fs : List ToolCallDelta) (g : CallAcc)
    → IsExtended (new_call id) g [] fs
    → g ≡ from_fragments id fs
extended-eq id fs g x = λ i. record {
  id = x.ids i;
  name = x.names i;
  append_buf = x.bufs i;
  path_args = λ k. x.args k i;
  path_order = x.orders i;
}

or_new-grow :
    (id : String) (fs : List ToolCallDelta)
    → All (λ (d : ToolCallDelta). d.call_id ≡ id) fs
    → or_new id (grow none fs) ≡ from_fragments id fs
unfolding add_fragment grown
or_new-grow id [] h = refl
or_new-grow id (f ∷ fs) h =
    ap (or_new id) (grow-grown fs (add_fragment none f))
    ∙ ap (λ x. grown (new_call x) (f ∷ fs)) h.0
    ∙ extended-eq id (f ∷ fs) (grown (new_call id) (f ∷ fs))
        (grown-IsExtended (f ∷ fs) (new_call id) [] (λ k. refl))

-- The accumulated calls are those of the reference.
pub call_at-reference :
    (es : List StreamEvent) (id : String)
    → call_at (absorb new_accumulator es).calls id ≡ call_of (fragments es) id
call_at-reference es id =
    ap (λ (m : Map CallAcc). call_at m id)
      ((absorb-fragments es new_accumulator new_accumulator (refl, refl)).0)
    ∙ ap (or_new id) (fold_fragments-calls (fragments es) new_accumulator id)
    ∙ or_new-grow id (fragments_of id (fragments es)) (fragments_of-id id (fragments es))
