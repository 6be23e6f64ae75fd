-- ===== src/Wording/Terms.antt =====
-- web-rally/src/lib/eventTerms.ts: the nouns of each kind of event. A type of event is a text, since
-- the source asks for any; the names that every JavaScript object inherits are not among them.
use platform_rally_extension.Base.{String, if◌then◌else◌, ◌==◌, Same-text, Option, none, some}

pub data Gender : Type 0 where
  m f : Gender

pub record EventTerms : Type 0 where
  pub checkpoint : String
  pub checkpoints : String
  pub activity : String
  pub activities : String
  pub event : String
  pub checkpoint_gender : Gender

pub data EventType : Type 0 where
  rally_tascas peddy_paper generic olympic : EventType

unfoldable pub terms : EventType → EventTerms
terms rally_tascas = record {
  checkpoint = "tasca";
  checkpoints = "tascas";
  activity = "prova";
  activities = "provas";
  event = "rally";
  checkpoint_gender = f;
}
terms peddy_paper = record {
  checkpoint = "posto";
  checkpoints = "postos";
  activity = "desafio";
  activities = "desafios";
  event = "peddy-paper";
  checkpoint_gender = m;
}
terms generic = record {
  checkpoint = "posto";
  checkpoints = "postos";
  activity = "prova";
  activities = "provas";
  event = "evento";
  checkpoint_gender = m;
}
terms olympic = record {
  checkpoint = "estação";
  checkpoints = "estações";
  activity = "prova";
  activities = "provas";
  event = "competição olímpica";
  checkpoint_gender = f;
}

abbrev pub default_event_type : EventType
default_event_type = rally_tascas

-- `eventType in TERMS`, with the key that it is.
abbrev pub known : String → Option EventType
known s =
    if s == "rally_tascas"
    then some rally_tascas
    else if s == "peddy_paper"
    then some peddy_paper
    else if s == "generic"
    then some generic
    else if s == "olympic"
    then some olympic
    else none

abbrev pub terms_or_default : Option EventType → EventTerms
terms_or_default none = terms default_event_type
terms_or_default (some t) = terms t

unfoldable pub get_event_terms : Option String → EventTerms
get_event_terms none = terms default_event_type
get_event_terms (some s) = terms_or_default (known s)
