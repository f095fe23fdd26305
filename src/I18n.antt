-- ===== src/I18n.antt =====
-- web/src/i18n/judge.ts: the messages that the desk stores and compares.
use platform_for_sudies.Common.{String}

abbrev pub sheet_submitted_text : String
sheet_submitted_text = "Лист уже сдан"

abbrev pub invalid_state_text : String
invalid_state_text = "Оценивание закрыто для изменений"

abbrev pub validation_text : String
validation_text = "Недопустимое значение"

abbrev pub not_assigned_text : String
not_assigned_text = "Эта оценка вам больше не назначена"

abbrev pub not_found_text : String
not_found_text = "Критерий или команда удалены"

abbrev pub fallback_text : String
fallback_text = "Сервер отклонил оценку"

abbrev pub stale_no_server_text : String
stale_no_server_text = "На сервере более новая версия"
