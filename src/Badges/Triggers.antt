-- ===== src/Badges/Triggers.antt =====
-- web-rally/src/lib/badgeTriggers.ts and lib/badges.ts: the triggers of a badge and how one is shown.
use platform_rally_extension.Base.{
  ℕ, String, if◌then◌else◌, ◌==◌, Same-text, Option, none, some, List, [], ◌∷◌, find,
}

-- The key of a numeric criterion, and what a trigger can be limited to.
pub data NumberKey : Type 0 where
  count min_score max_seconds : NumberKey

pub data Param : Type 0 where
  activity checkpoint : Param

pub record NumberParam : Type 0 where
  pub key : NumberKey
  pub label : String
  pub placeholder : String
  pub min : ℕ

pub record TriggerMeta : Type 0 where
  pub value : String
  pub label : String
  pub help : String
  pub param : Option Param
  pub number_param : Option NumberParam

unfoldable pub key_text : NumberKey → String
key_text count = "count"
key_text min_score = "min_score"
key_text max_seconds = "max_seconds"

abbrev pub triggers : List TriggerMeta
triggers =
    record {
      value = "win_activity";
      label = "Vencer atividade";
      help = "Atribuído à equipa que vence um confronto (por defeito TeamVs).";
      param = some activity;
      number_param = none;
    }
    ∷ record {
      value = "first_complete_activity";
      label = "Primeiro a completar atividade";
      help = "Primeira equipa a concluir a atividade. Único vencedor.";
      param = some activity;
      number_param = none;
    }
    ∷ record {
      value = "first_complete_checkpoint";
      label = "Primeiro a completar posto";
      help = "Primeira equipa a concluir todas as atividades de um posto. Único vencedor.";
      param = some checkpoint;
      number_param = none;
    }
    ∷ record {
      value = "complete_n_activities";
      label = "Completar N atividades";
      help =
          "Atribuído quando a equipa conclui pelo menos N atividades. Várias equipas podem ganhar.";
      param = none;
      number_param =
          some (record {
            key = count;
            label = "Número de atividades";
            placeholder = "ex: 5";
            min = 1;
          });
    }
    ∷ record {
      value = "complete_all_checkpoints";
      label = "Completar todo o rally";
      help = "Atribuído quando a equipa conclui todas as atividades ativas de todos os postos.";
      param = none;
      number_param = none;
    }
    ∷ record {
      value = "score_threshold";
      label = "Atingir pontuação";
      help = "Atribuído quando a pontuação total da equipa atinge o valor definido.";
      param = none;
      number_param = some (record {
        key = min_score;
        label = "Pontuação mínima";
        placeholder = "ex: 100";
        min = 0;
      });
    }
    ∷ record {
      value = "fast_complete";
      label = "Completar rápido";
      help = "Atribuído quando a equipa conclui uma atividade dentro do limite de tempo.";
      param = some activity;
      number_param = some (record {
        key = max_seconds;
        label = "Tempo máximo (segundos)";
        placeholder = "ex: 120";
        min = 1;
      });
    }
    ∷ []

unfoldable pub trigger_meta : String → Option TriggerMeta
trigger_meta value = find (λ t. t.value == value) triggers

pub record BadgeDisplay : Type 0 where
  pub label : String
  pub description : String
  pub color : String
  pub glyph : String
  pub icon_url : Option String

abbrev pub fallback_color : String
fallback_color = "#8b5cf6"

-- The fields of `BadgeDefinitionLite`.
pub record BadgeDefinitionLite : Type 0 where
  pub name : String
  pub description : Option String
  pub color : Option String
  pub glyph : Option String
  pub icon_url : Option String

-- `text || other`
abbrev pub or_else : Option String → String → String
or_else none other = other
or_else (some s) other = if s == "" then other else s

unfoldable pub get_badge_display : BadgeDefinitionLite → BadgeDisplay
get_badge_display defn = record {
  label = defn.name;
  description = or_else defn.description "Distinção atribuída à equipa.";
  color = or_else defn.color fallback_color;
  glyph = or_else defn.glyph "◈";
  icon_url = defn.icon_url;
}
