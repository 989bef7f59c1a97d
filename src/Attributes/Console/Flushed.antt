-- ===== src/Attributes/Console/Flushed.antt =====
-- xopconsole's Append writes what changed since it was last called, whatever calls came before.
use xm.Base.{
  ◌≡◌, ap, sym, [], if◌then◌else◌, length, ◌∷◌, Bool, some, Bytes, Map, Bool-cases, inl, inr,
}
use xm.JBuilder.{JBuilder, append_bytes}
use xm.Attributes.{SingleAttribute, MultiAttribute, AttributeBuilder, init}
use xm.Attributes.History.{History, nothing_seen, written, some_back}
use xm.Attributes.Touched.{keep_distinct-changed}
use xm.Attributes.Console.{Attribute, Request, ConsoleBuilder, multi_value, append}
use xm.Attributes.Console.Builder.{Formats}
use xm.Attributes.Arguments.{Argument}
use xm.Attributes.Console.Methods.{perform}

-- The builders that calls of the methods and of Append make out of Init, and what has been seen of them.
pub data Reachable (f : Formats) (fails : Bytes → Bool) : ConsoleBuilder → History → Type 0 where
  start : (r : Request) → Reachable f fails (record { attributes = init; request = r }) nothing_seen
  call :
      (k : Attribute) (v : Argument) (c d : ConsoleBuilder) (h : History)
      → Reachable f fails c h
      → perform f fails k v c ≡ some d
      → Reachable f fails d h
  flush :
      (ms : Map MultiAttribute) (ss : Map SingleAttribute) (only_changed : Bool) (j : JBuilder)
      (c : ConsoleBuilder) (a : AttributeBuilder) (h : History)
      → Reachable f fails c h
      → (append ms ss only_changed c.attributes j).1 ≡ a
      → Reachable f fails (record c { attributes = a }) (written only_changed c.attributes h)

pub multi_value-changed :
    (k : Attribute) (dt : xm.Metadata.DataType) (add : JBuilder → JBuilder) (pre_existing : Bool)
    (m m' : MultiAttribute)
    → multi_value k dt add pre_existing m ≡ some m'
    → m'.changed ≡ m.changed
unfolding multi_value
multi_value-changed k dt add pre_existing m m' e = elim (Bool-cases k.distinct) [
  | inl d ↦
      let b0 = if pre_existing then m.builder else append_bytes k.console_key m.builder in
      let b1 = if pre_existing then append_bytes (b',' ∷ []) b0 else b0 in
      keep_distinct-changed (length b0.b) (length b1.b)
        (record m { data_type = some dt; builder = add b1 }) m' (rw (d, multi_value) at e)
  | inr d ↦ sym (ap (λ (x : MultiAttribute). x.changed) (some_back (rw (d, multi_value) at e)))
]
