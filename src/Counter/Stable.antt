-- ===== src/Counter/Stable.antt =====
-- xoputil/counter.go: a request keeps its numbers.
use xm.Base.{
  ℕ, ◌≡◌, refl, sym, ◌∙◌, subst, true, false, none, some, List, [], ◌∷◌, Bytes, bytes_eq,
  bytes_eq_sound, lookup, insert, lookup-insert_self, lookup-insert_ne, Option-cases, Bool-cases,
  inl, inr,
}
use xm.Counter.{
  TraceInfo, RequestCounter, load_trace, load_request, get_number, after_calls, add_one,
}

-- A request of a trace that has the number, as its count goes on.
record HasRequest (tn : ℕ) (span : Bytes) (rn : ℕ) (ti : TraceInfo) : Type 0 where
  trace_is : ti.trace_num ≡ tn
  request_is : lookup span ti.request_map ≡ some rn

-- The counter has the numbers of a request.
record HasNumbers (trace span : Bytes) (tn rn : ℕ) (c : RequestCounter) : Type 0 where
  info : TraceInfo
  is_there : lookup trace c.trace_map ≡ some info
  has_request : HasRequest tn span rn info

load_request-HasRequest :
    (tn rn : ℕ) (span other : Bytes) (ti : TraceInfo)
    → HasRequest tn span rn ti
    → HasRequest tn span rn (load_request other ti).2
unfolding load_request
load_request-HasRequest tn rn span other ti h = elim (Option-cases (lookup other ti.request_map)) [
  | inl n ↦ elim (Bool-cases (bytes_eq other span)) [
    | inl e ↦
        let q : lookup span ti.request_map ≡ none =
          subst (λ (j : Bytes). lookup j ti.request_map ≡ none) (bytes_eq_sound other span e) n in
        absurd (cc (sym q ∙ h.request_is))
    | inr d ↦
        rw (n, load_request)
          (record {
            trace_is = h.trace_is;
            request_is =
                lookup-insert_ne other span (add_one ti.request_count) ti.request_map d
                ∙ h.request_is;
          })
  ]
  | inr (k, e) ↦ rw (e, load_request) h
]

load_request_self :
    (span : Bytes) (ti : TraceInfo)
    → HasRequest ti.trace_num span (load_request span ti).0 (load_request span ti).2
unfolding load_request
load_request_self span ti = elim (Option-cases (lookup span ti.request_map)) [
  | inl n ↦
      rw (n, load_request)
        (record {
          trace_is = refl;
          request_is = lookup-insert_self span (add_one ti.request_count) ti.request_map;
        })
  | inr (k, e) ↦ rw (e, load_request) (record { trace_is = refl; request_is = e })
]

load_request_again :
    (tn rn : ℕ) (span : Bytes) (ti : TraceInfo)
    → HasRequest tn span rn ti
    → load_request span ti ≡ (rn, true, ti)
unfolding load_request
load_request_again tn rn span ti h = rw (h.request_is, load_request) refl

-- What is found for a trace is what is put back.
load_trace_there :
    (trace : Bytes) (c : RequestCounter) (ti : TraceInfo)
    → lookup trace c.trace_map ≡ some ti
    → load_trace trace c ≡ (ti, c)
unfolding load_trace
load_trace_there trace c ti h = rw (h, load_trace) refl

load_trace_elsewhere :
    (trace other : Bytes) (c : RequestCounter)
    → bytes_eq other trace ≡ false
    → lookup trace (load_trace other c).1.trace_map ≡ lookup trace c.trace_map
unfolding load_trace
load_trace_elsewhere trace other c d = elim (Option-cases (lookup other c.trace_map)) [
  | inl n ↦ rw (n, load_trace) (lookup-insert_ne other trace _ c.trace_map d)
  | inr (k, e) ↦ rw (e, load_trace) refl
]

get_number-HasNumbers :
    (trace span : Bytes) (tn rn : ℕ) (other_trace other : Bytes) (c : RequestCounter)
    → HasNumbers trace span tn rn c
    → HasNumbers trace span tn rn (get_number other_trace other c).1
unfolding get_number
get_number-HasNumbers trace span tn rn other_trace other c h =
    elim (Bool-cases (bytes_eq other_trace trace)) [
      | inl e ↦
          let q = bytes_eq_sound other_trace trace e in
          let there : lookup other_trace c.trace_map ≡ some h.info =
            subst (λ (j : Bytes). lookup j c.trace_map ≡ some h.info) (sym q) h.is_there in
          rw (load_trace_there other_trace c h.info there) (record {
            info = (load_request other h.info).2;
            is_there =
                subst
                  (λ (j : Bytes).
                    lookup j (insert other_trace (load_request other h.info).2 c.trace_map)
                    ≡ some (load_request other h.info).2)
                  q (lookup-insert_self other_trace (load_request other h.info).2 c.trace_map);
            has_request = load_request-HasRequest tn rn span other h.info h.has_request;
          })
      | inr d ↦ record {
        info = h.info;
        is_there =
            lookup-insert_ne other_trace trace _ (load_trace other_trace c).1.trace_map d
            ∙ (load_trace_elsewhere trace other_trace c d ∙ h.is_there);
        has_request = h.has_request;
      }
    ]

after_calls-HasNumbers :
    (trace span : Bytes) (tn rn : ℕ) (calls : List (Bytes × Bytes)) (c : RequestCounter)
    → HasNumbers trace span tn rn c
    → HasNumbers trace span tn rn (after_calls calls c)
unfolding after_calls
after_calls-HasNumbers trace span tn rn [] c h = h
after_calls-HasNumbers trace span tn rn ((t, s) ∷ calls) c h =
    after_calls-HasNumbers trace span tn rn calls (get_number t s c).1
      (get_number-HasNumbers trace span tn rn t s c h)

get_number_first :
    (trace span : Bytes) (c : RequestCounter)
    → HasNumbers trace span
        (get_number trace span c).0.trace_number
        (get_number trace span c).0.request_number
        (get_number trace span c).1
unfolding get_number
get_number_first trace span c =
    let ti = (load_trace trace c).0 in
    record {
      info = (load_request span ti).2;
      is_there = lookup-insert_self trace (load_request span ti).2 (load_trace trace c).1.trace_map;
      has_request = record { trace_is = refl; request_is = (load_request_self span ti).request_is };
    }

get_number_later :
    (trace span : Bytes) (tn rn : ℕ) (c : RequestCounter)
    → HasNumbers trace span tn rn c
    → (get_number trace span c).0
      ≡ record { trace_number = tn; request_number = rn; is_new = false }
unfolding get_number
get_number_later trace span tn rn c h =
    rw
      (
        load_trace_there trace c h.info h.is_there,
        load_request_again tn rn span h.info h.has_request,
        h.has_request.trace_is,
      )
      refl

-- Whatever calls come between: a second call for a trace and a span gives the numbers of the first and says that
-- the request is not new.
pub get_number-get_number :
    (trace span : Bytes) (calls : List (Bytes × Bytes)) (c : RequestCounter)
    → (get_number trace span (after_calls calls (get_number trace span c).1)).0 ≡ record {
      trace_number = (get_number trace span c).0.trace_number;
      request_number = (get_number trace span c).0.request_number;
      is_new = false;
    }
get_number-get_number trace span calls c =
    let first = (get_number trace span c).0 in
    get_number_later trace span first.trace_number first.request_number _ (
      after_calls-HasNumbers trace span first.trace_number first.request_number calls _
        (get_number_first trace span c))
