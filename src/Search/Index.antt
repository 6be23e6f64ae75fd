-- ===== src/Search/Index.antt =====
-- web-rally/src/lib/adminSearchIndex.ts: the entries of the search in the admin area.
use platform_rally_extension.Base.{
  String, Bool, true, false, Option, none, some, List, [], ◌∷◌, ◌++◌, map,
}

-- `requiresField`: the name of a switch, and its value.
pub record RequiresField : Type 0 where
  pub name : String
  pub value : Bool

pub record AdminSearchEntry : Type 0 where
  pub key : String
  pub label : String
  pub tab_id : String
  pub settings_section_id : Option String
  pub requires_field : Option RequiresField
  pub tab_only : Bool

abbrev pub SettingsTuple : Type 0
SettingsTuple = String × String × Option RequiresField

abbrev pub settings_entry : String → SettingsTuple → AdminSearchEntry
settings_entry section_id (key, label, requires_field) = record {
  key = key;
  label = label;
  tab_id = "settings";
  settings_section_id = some section_id;
  requires_field = requires_field;
  tab_only = false;
}

abbrev pub settings_entries : String → List SettingsTuple → List AdminSearchEntry
settings_entries section_id tuples = map (settings_entry section_id) tuples

abbrev pub tab_entry : String → String × String → AdminSearchEntry
tab_entry tab_id (key, label) = record {
  key = key;
  label = label;
  tab_id = tab_id;
  settings_section_id = none;
  requires_field = none;
  tab_only = false;
}

abbrev pub tab_entries : String → List (String × String) → List AdminSearchEntry
tab_entries tab_id tuples = map (tab_entry tab_id) tuples

abbrev pub tab_only_entry : String → String → String → AdminSearchEntry
tab_only_entry tab_id key label = record (tab_entry tab_id (key, label)) { tab_only = true }

abbrev on_hints_enabled : Option RequiresField
on_hints_enabled = some (record { name = "hints_enabled"; value = true })

abbrev on_skip_enabled : Option RequiresField
on_skip_enabled = some (record { name = "skip_enabled"; value = true })

abbrev on_leg_time_scoring : Option RequiresField
on_leg_time_scoring = some (record { name = "leg_time_scoring_enabled"; value = true })

abbrev pub equipas_fields : List SettingsTuple
equipas_fields =
    ("max_teams", "Número máximo de equipas", none)
    ∷ ("max_members_per_team", "Máximo de membros por equipa", none)
    ∷ ("enable_versus", "Ativar modo versus", none)
    ∷ ("allow_staff_registration", "Inscrições no local pelo staff", none)
    ∷ []

abbrev pub pontuacao_fields : List SettingsTuple
pontuacao_fields =
    ("enable_staff_scoring", "Permitir pontuação manual pelos staff", none)
    ∷ ("penalty_per_puke", "Penalização por vómito", none)
    ∷ ("penalty_per_not_drinking", "Penalização por não beber", none)
    ∷ ("bonus_per_extra_shot", "Bónus por shot extra", none)
    ∷ ("max_extra_shots_per_member", "Máximo shots extra por membro", none)
    ∷ []

abbrev pub jogo_fields : List SettingsTuple
jogo_fields =
    ("reveal_next_checkpoint", "Revelar o próximo posto antes da chegada", none)
    ∷ ("reveal_on_arrival", "Revelar o posto ao chegar", none)
    ∷ ("participant_view_enabled", "Ativar visualização para participantes", none)
    ∷ ("gps_checkin_enabled", "Check-in por GPS feito pela equipa", none)
    ∷ ("guide_manual_arrival_enabled", "Guias podem marcar chegadas", none)
    ∷ ("hints_enabled", "Permitir pedir pistas", none)
    ∷ ("hint_penalty", "Custo de uma pista", on_hints_enabled)
    ∷ ("skip_enabled", "Permitir desistir de um posto", none)
    ∷ ("skip_penalty", "Custo de desistir de um posto", on_skip_enabled)
    ∷ []

abbrev pub rota_fields : List SettingsTuple
rota_fields =
    ("checkpoint_order_matters", "A ordem dos postos importa", none)
    ∷ ("route_stages_enabled", "Etapas da rota", none)
    ∷ ("checkpoint_hours_enabled", "Respeitar horários dos postos", none)
    ∷ ("leg_time_scoring_enabled", "Pontuar tempo de percurso entre postos", none)
    ∷ ("leg_time_target_minutes", "Tempo esperado entre postos", on_leg_time_scoring)
    ∷ ("leg_time_points_per_minute", "Pontos por minuto de desvio", on_leg_time_scoring)
    ∷ ("leg_time_max_adjustment", "Limite do ajuste por percurso", on_leg_time_scoring)
    ∷ ("proximity_enabled", "Botão estou perto", none)
    ∷ ("compass_enabled", "Bússola", none)
    ∷ ("search_radius_m", "Raio da zona de busca", none)
    ∷ []

abbrev pub visualizacao_fields : List SettingsTuple
visualizacao_fields =
    ("show_score_mode", "Modo de Visualização da Pontuação", none)
    ∷ ("show_live_leaderboard", "Mostrar leaderboard em tempo real", none)
    ∷ ("show_team_details", "Mostrar detalhes das equipas", none)
    ∷ ("show_route_mode", "Modo de Visualização do Trajeto", none)
    ∷ ("show_checkpoint_map", "Mostrar mapa dos checkpoints", none)
    ∷ ("public_access_enabled", "Permitir acesso público", none)
    ∷ ("guide_mode_enabled", "Ativar funcionalidade de modo guia", none)
    ∷ ("guide_mode_active", "Modo guia ativo neste evento", none)
    ∷ ("badges_enabled", "Ativar crachás/conquistas", none)
    ∷ (
      "allow_photo_as_team_photo", "Permitir staff definir foto de atividade como foto da equipa",
      none,
    )
    ∷ []

abbrev pub inicio_fields : List SettingsTuple
inicio_fields =
    ("home_layout", "Secções da página inicial", none)
    ∷ ("ticker_items_list", "Faixa de destaques", none)
    ∷ []

abbrev pub regras_fields : List SettingsTuple
regras_fields = ("rules_sections", "Secções de regras", none) ∷ []

abbrev pub branding_fields : List (String × String)
branding_fields =
    ("event_name", "Nome do evento")
    ∷ ("event_subtitle", "Subtítulo do evento")
    ∷ ("accent_color", "Cor de destaque")
    ∷ []

abbrev pub events_fields : List (String × String)
events_fields =
    ("ev-name", "Nome da edição")
    ∷ ("ev-type", "Tipo de edição")
    ∷ ("ev-start", "Início da edição")
    ∷ ("ev-end", "Fim da edição")
    ∷ ("ev-desc", "Descrição da edição")
    ∷ []

abbrev pub teams_fields : List (String × String)
teams_fields = ("team_name", "Nome da equipa") ∷ ("team_offset_minutes", "Partida desfasada") ∷ []

abbrev pub checkpoints_fields : List (String × String)
checkpoints_fields =
    ("checkpoint_name", "Nome do checkpoint")
    ∷ ("checkpoint_provisional", "Nome provisório do checkpoint")
    ∷ ("checkpoint_description", "Descrição do checkpoint")
    ∷ ("checkpoint_latitude", "Latitude do checkpoint")
    ∷ ("checkpoint_longitude", "Longitude do checkpoint")
    ∷ ("checkpoint_radius", "Raio de chegada do checkpoint")
    ∷ ("checkpoint_clue", "Enigma para a equipa")
    ∷ ("checkpoint_staff_script", "Guião do staff")
    ∷ ("checkpoint_challenge_brief", "Desafio em texto")
    ∷ ("checkpoint_stage", "Etapa do checkpoint")
    ∷ ("checkpoint_opens_at", "Checkpoint abre a")
    ∷ ("checkpoint_closes_at", "Checkpoint fecha a")
    ∷ ("checkpoint_draft", "Checkpoint em rascunho")
    ∷ ("new_stage_name", "Nome da nova etapa")
    ∷ []

abbrev pub scoring_fields : List (String × String)
scoring_fields =
    ("rule_name", "Nome da regra de pontuação")
    ∷ ("rule_type", "Tipo da regra de pontuação")
    ∷ ("rule_points", "Pontos da regra")
    ∷ ("rule_description", "Descrição da regra de pontuação")
    ∷ ("award_team", "Equipa do prémio manual")
    ∷ ("award_points", "Pontos do prémio manual")
    ∷ ("award_rule", "Regra do prémio manual")
    ∷ ("award_reason", "Razão do prémio manual")
    ∷ []

abbrev pub badges_fields : List (String × String)
badges_fields =
    ("badge_code", "Código único do crachá")
    ∷ ("badge_name", "Nome do crachá")
    ∷ ("badge_description", "Descrição do crachá")
    ∷ ("badge_color", "Cor do crachá")
    ∷ ("badge_emoji", "Emoji do crachá")
    ∷ ("badge_auto_award", "Atribuição automática de crachá")
    ∷ ("badge_trigger", "Condição de atribuição do crachá")
    ∷ ("award_manual_team", "Equipa para atribuir crachá")
    ∷ ("award_manual_badge", "Crachá a atribuir manualmente")
    ∷ []

abbrev pub notifications_fields : List (String × String)
notifications_fields =
    ("broadcast_title", "Título do anúncio")
    ∷ ("broadcast_message", "Mensagem do anúncio")
    ∷ ("broadcast_link", "Link ao clicar no anúncio")
    ∷ []

abbrev pub tab_only_entries : List AdminSearchEntry
tab_only_entries =
    tab_only_entry "dashboard" "tab:dashboard" "Painel ao vivo"
    ∷ tab_only_entry "metrics" "tab:metrics" "Métricas do sistema"
    ∷ tab_only_entry "judging" "tab:judging" "Julgamento diferido"
    ∷ tab_only_entry "audit" "tab:audit" "Registo de auditoria"
    ∷ []

abbrev pub admin_search_index : List AdminSearchEntry
admin_search_index =
    settings_entries "equipas" equipas_fields
    ++ settings_entries "pontuacao" pontuacao_fields
    ++ settings_entries "jogo" jogo_fields
    ++ settings_entries "rota" rota_fields
    ++ settings_entries "visualizacao" visualizacao_fields
    ++ settings_entries "inicio" inicio_fields
    ++ settings_entries "regras" regras_fields
    ++ tab_entries "branding" branding_fields
    ++ tab_entries "events" events_fields
    ++ tab_entries "teams" teams_fields
    ++ tab_entries "checkpoints" checkpoints_fields
    ++ tab_entries "scoring" scoring_fields
    ++ tab_entries "badges" badges_fields
    ++ tab_entries "notifications" notifications_fields
    ++ tab_only_entries
