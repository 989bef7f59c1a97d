-- ===== src/Attributes/Json/Flushed.antt =====
-- xopjsonutil's Append writes what changed since it was last called, whatever calls came before.
use xm.Base.{◌≡◌, Bool, some, Map}
use xm.JBuilder.{JBuilder}
use xm.Attributes.{SingleAttribute, MultiAttribute, AttributeBuilder, init}
use xm.Attributes.History.{History, nothing_seen, written}
use xm.Attributes.Flush.{those, write_all}
use xm.Attributes.Json.{
  Attribute, open_attributes, close_attributes, write_multi, write_single, append,
}
use xm.Attributes.Json.Builder.{Formats}
use xm.Attributes.Arguments.{Argument}
use xm.Attributes.Json.Methods.{perform}

-- The builders that calls of the methods and of Append make out of Init, and what has been seen of them.
pub data Reachable (f : Formats) : AttributeBuilder → History → Type 0 where
  start : Reachable f init nothing_seen
  call :
      (k : Attribute) (v : Argument) (a b : AttributeBuilder) (h : History)
      → Reachable f a h
      → perform f k v a ≡ some b
      → Reachable f b h
  flush :
      (ms : Map MultiAttribute) (ss : Map SingleAttribute) (only_changed attributes_object : Bool)
      (j : JBuilder) (a b : AttributeBuilder) (h : History)
      → Reachable f a h
      → (append ms ss only_changed attributes_object a j).1 ≡ b
      → Reachable f b (written only_changed a h)

-- The text of an Append that has something to write.
unfoldable pub flush_text :
    Bool → Map MultiAttribute → Map SingleAttribute → Bool → JBuilder → JBuilder
flush_text only_changed ms ss attributes_object j = close_attributes attributes_object (
    write_all (λ s. s.changed) write_single (those (λ s. s.changed) only_changed ss)
      (write_all (λ m. m.changed) write_multi (those (λ m. m.changed) only_changed ms)
        (open_attributes attributes_object j)))
