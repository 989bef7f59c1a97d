-- ===== src/Groups/Spans.antt =====
-- basegroup.go: the methods of a group of spans, and a group's way from a span to a finished line.
use xm.Base.{ℕ, ◌≡◌, refl, ap, sym, ◌∙◌, Bool, List, [], ◌∷◌, map, Bytes}
use mathlib.Core.List.{map-id, map-map}
use xm.Metadata.Values.{ModelArg, Enum, TimeValue}
use xm.Trace.{Trace}
use xm.Attributes.Arguments.{
  any_argument, bool_argument, enum_argument, float64_argument, int64_argument, link_argument,
  string_argument, time_argument,
}
use xm.Groups.{join}
use xm.Groups.Calls.{Attribute, LineCall, SpanCall, done_call, boring_call, metadata_call}
use xm.Groups.Lines.{lines_call, lines_call-map, prefillings_call, prefillings_call-map}

-- What a member does: `span` and the others make a new part out of an old one, which a call on the old one
-- does not change.
pub record Member (S P D N : Type 0) : Type 0 where
  pub call : SpanCall → S → S
  pub span : TimeValue → Bytes → Bytes → S → S
  pub id : S → Bytes
  pub no_prefill : S → D
  pub start_prefill : S → P
  pub prefill : Attribute → P → P
  pub prefill_complete : Bytes → P → D
  pub start_line : ℕ → TimeValue → List ℕ → D → N
  pub line : LineCall → N → N

module _ {S P D N : Type 0} (m : Member S P D N) where
  unfoldable pub spans_done : TimeValue → Bool → List S → List S
  spans_done t final s = map (m.call (done_call t final)) s

  unfoldable pub spans_boring : Bool → List S → List S
  spans_boring b s = map (m.call (boring_call b)) s

  unfoldable pub spans_metadata_any : Bytes → ModelArg → List S → List S
  spans_metadata_any k v s = map (m.call (metadata_call k (any_argument v))) s

  unfoldable pub spans_metadata_bool : Bytes → Bool → List S → List S
  spans_metadata_bool k v s = map (m.call (metadata_call k (bool_argument v))) s

  unfoldable pub spans_metadata_enum : Bytes → Enum → List S → List S
  spans_metadata_enum k v s = map (m.call (metadata_call k (enum_argument v))) s

  unfoldable pub spans_metadata_float64 : Bytes → ℕ → List S → List S
  spans_metadata_float64 k v s = map (m.call (metadata_call k (float64_argument v))) s

  unfoldable pub spans_metadata_int64 : Bytes → ℕ → List S → List S
  spans_metadata_int64 k v s = map (m.call (metadata_call k (int64_argument v))) s

  unfoldable pub spans_metadata_link : Bytes → Trace → List S → List S
  spans_metadata_link k v s = map (m.call (metadata_call k (link_argument v))) s

  unfoldable pub spans_metadata_string : Bytes → Bytes → List S → List S
  spans_metadata_string k v s = map (m.call (metadata_call k (string_argument v))) s

  unfoldable pub spans_metadata_time : Bytes → TimeValue → List S → List S
  spans_metadata_time k v s = map (m.call (metadata_call k (time_argument v))) s

  unfoldable pub spans_span : TimeValue → Bytes → Bytes → List S → List S
  spans_span t name code s = map (m.span t name code) s

  unfoldable pub spans_id : List S → Bytes
  unfolding join
  spans_id s = join (map m.id s)

  unfoldable pub spans_no_prefill : List S → List D
  spans_no_prefill s = map m.no_prefill s

  unfoldable pub spans_start_prefill : List S → List P
  spans_start_prefill s = map m.start_prefill s

  unfoldable pub prefillings_prefill_complete : Bytes → List P → List D
  prefillings_prefill_complete text p = map (m.prefill_complete text) p

  unfoldable pub prefilleds_line : ℕ → TimeValue → List ℕ → List D → List N
  prefilleds_line level t frames p = map (m.start_line level t frames) p

  -- The method of a call.
  unfoldable pub spans_call : SpanCall → List S → List S
  spans_call (done_call t final) = spans_done t final
  spans_call (boring_call b) = spans_boring b
  spans_call (metadata_call k (any_argument v)) = spans_metadata_any k v
  spans_call (metadata_call k (bool_argument v)) = spans_metadata_bool k v
  spans_call (metadata_call k (enum_argument v)) = spans_metadata_enum k v
  spans_call (metadata_call k (float64_argument v)) = spans_metadata_float64 k v
  spans_call (metadata_call k (int64_argument v)) = spans_metadata_int64 k v
  spans_call (metadata_call k (link_argument v)) = spans_metadata_link k v
  spans_call (metadata_call k (string_argument v)) = spans_metadata_string k v
  spans_call (metadata_call k (time_argument v)) = spans_metadata_time k v

  pub spans_call-map : (c : SpanCall) (s : List S) → spans_call c s ≡ map (m.call c) s
  unfolding spans_call spans_done spans_boring spans_metadata_any spans_metadata_bool
      spans_metadata_enum spans_metadata_float64 spans_metadata_int64 spans_metadata_link
      spans_metadata_string spans_metadata_time
  spans_call-map (done_call t final) s = refl
  spans_call-map (boring_call b) s = refl
  spans_call-map (metadata_call k (any_argument v)) s = refl
  spans_call-map (metadata_call k (bool_argument v)) s = refl
  spans_call-map (metadata_call k (enum_argument v)) s = refl
  spans_call-map (metadata_call k (float64_argument v)) s = refl
  spans_call-map (metadata_call k (int64_argument v)) s = refl
  spans_call-map (metadata_call k (link_argument v)) s = refl
  spans_call-map (metadata_call k (string_argument v)) s = refl
  spans_call-map (metadata_call k (time_argument v)) s = refl

-- A run of calls.
unfoldable pub run_calls : {C X : Type 0} → (C → X → X) → List C → X → X
run_calls f [] x = x
run_calls f (c ∷ cs) x = run_calls f cs (f c x)

run_calls-map :
    {C X : Type 0} (f : C → X → X) (g : C → List X → List X)
    → ((c : C) (l : List X) → g c l ≡ map (f c) l)
    → (cs : List C) (l : List X) → run_calls g cs l ≡ map (run_calls f cs) l
unfolding run_calls
run_calls-map f g h [] l = sym (map-id l)
run_calls-map f g h (c ∷ cs) l =
    ap (run_calls g cs) (h c l)
    ∙ (run_calls-map f g h cs (map (f c) l) ∙ map-map (run_calls f cs) (f c) l)

-- What the code above the base loggers does with a span: calls on it, a child, calls on the child, a
-- prefilled part, and a line that is built and sent.
pub record Script : Type 0 where
  pub before : List SpanCall
  pub time : TimeValue
  pub name : Bytes
  pub code : Bytes
  pub after : List SpanCall
  pub attributes : List Attribute
  pub text : Bytes
  pub level : ℕ
  pub frames : List ℕ
  pub calls : List LineCall

module _ {S P D N : Type 0} (m : Member S P D N) where
  -- On one member.
  unfoldable pub follow : Script → S → N
  unfolding run_calls
  follow r s =
      let child =
        run_calls m.call r.after (m.span r.time r.name r.code (run_calls m.call r.before s)) in
      let prefilled =
        m.prefill_complete r.text (run_calls m.prefill r.attributes (m.start_prefill child)) in
      run_calls m.line r.calls (m.start_line r.level r.time r.frames prefilled)

  -- On the group, by its methods.
  unfoldable pub follow_group : Script → List S → List N
  unfolding run_calls
  follow_group r s =
      let child =
        run_calls (spans_call m) r.after
          (spans_span m r.time r.name r.code (run_calls (spans_call m) r.before s)) in
      let prefilled =
        prefillings_prefill_complete m r.text
          (run_calls (prefillings_call m.prefill) r.attributes (spans_start_prefill m child)) in
      run_calls (lines_call m.line) r.calls (prefilleds_line m r.level r.time r.frames prefilled)

  spans_run :
      (cs : List SpanCall) (s : List S)
      → run_calls (spans_call m) cs s ≡ map (run_calls m.call cs) s
  spans_run = run_calls-map m.call (spans_call m) (spans_call-map m)

  prefillings_run :
      (cs : List Attribute) (p : List P)
      → run_calls (prefillings_call m.prefill) cs p ≡ map (run_calls m.prefill cs) p
  prefillings_run =
      run_calls-map m.prefill (prefillings_call m.prefill) (prefillings_call-map m.prefill)

  lines_run :
      (cs : List LineCall) (l : List N)
      → run_calls (lines_call m.line) cs l ≡ map (run_calls m.line cs) l
  lines_run = run_calls-map m.line (lines_call m.line) (lines_call-map m.line)

  -- Whatever is done with a group of spans, from calls on it and on a child to a line that is built and sent,
  -- is done with every member as it would be with the member alone, in the order of the members.
  pub follow_group-map : (r : Script) (s : List S) → follow_group r s ≡ map (follow r) s
  unfolding follow follow_group spans_span spans_start_prefill prefillings_prefill_complete
      prefilleds_line
  follow_group-map r s = simp (spans_run, prefillings_run, lines_run, map-map) refl
