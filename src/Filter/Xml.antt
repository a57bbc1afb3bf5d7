-- ===== src/Filter/Xml.antt =====
-- libxml's nodes, as far as e-util/e-filter-rule.c and e-util/e-filter-part.c use them: a node has a
-- name, attributes, a text content and children.
use e_mail_factory.Base.{Text, text_eq, List, Option, lookup}

mutual
  pub data Xml : Type 0 where
    element : Text → List (Text × Text) → Text → XmlList → Xml

  pub data XmlList : Type 0 where
    nil : XmlList
    cons : Xml → XmlList → XmlList

abbrev pub node_name : Xml → Text
node_name (element name props content children) = name

-- xmlNodeGetContent of a node without children
abbrev pub node_content : Xml → Text
node_content (element name props content children) = content

abbrev pub node_children : Xml → XmlList
node_children (element name props content children) = children

abbrev pub node_props : Xml → List (Text × Text)
node_props (element name props content children) = props

-- xmlGetProp
abbrev pub get_prop : Text → Xml → Option Text
get_prop key node = lookup key (node_props node)

-- What the code asks of GLib, libxml and gettext for a title: g_markup_escape_text, the content that
-- a node has after xmlNodeSetContent, and the translation of a text.
pub record Titles : Type 0 where
  pub markup_escape : Text → Text
  pub set_content : Text → Text
  pub gettext : Text → Text
