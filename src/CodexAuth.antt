-- ===== src/CodexAuth.antt =====
-- apps/admin-web/src/codexAuthStatus.js: the message about the login of the Codex CLI.
use codex_memory.Prelude.{◌==◌, String, List, [], ◌∷◌, if◌then◌else◌}
use codex_memory.Format.{entry, inherited, missing, lookup, Label, label_text, native}

unfoldable pub reason_messages : List (String × String)
reason_messages =
    ("coordinator_not_configured", "认证协调器未配置，请先补齐协调器地址后再重试。")
    ∷ ("coordinator_token_not_configured", "认证协调器控制令牌未配置，请先补齐配置后再重试。")
    ∷ ("coordinator_invalid", "认证协调器地址无效，请检查配置后再重试。")
    ∷ ("coordinator_unauthorized", "认证协调器未接受控制令牌，请检查配置后再重试。")
    ∷ ("coordinator_unreachable", "认证协调器不可达，请确认协调器正在运行后再重试。")
    ∷ ("coordinator_invalid_response", "认证协调器返回了无法识别的状态，请检查协调器版本后再重试。")
    ∷ ("auth_status_error", "Codex CLI 登录状态异常，请点击“重新检查”；若持续失败，请检查协调器和 CLI 登录进程。")
    ∷ []

unfoldable pub status_messages : List (String × String)
status_messages =
    ("ready", "Codex CLI 已登录，可点击“更换账号”启动新的登录流程。")
    ∷ ("not_logged_in", "Codex CLI 尚未登录，可点击“开始登录”。")
    ∷ ("login_in_progress", "登录正在进行中，可等待完成或点击“取消”。")
    ∷ ("error", "认证状态检查失败，请点击“重新检查”。")
    ∷ []

abbrev pub default_message : String
default_message = "Codex CLI 登录状态异常，请点击“重新检查”；若持续失败，请检查协调器和 CLI 登录进程。"

-- `message || REASON_MESSAGES[reason] || STATUS_MESSAGES[status] || …` of three texts.
unfoldable pub get_codex_auth_status_message : String → String → String → Label
unfolding lookup reason_messages status_messages
get_codex_auth_status_message status reason message =
    if message == ""
    then elim (lookup reason_messages reason) [
      | entry found ↦ label_text found
      | inherited ↦ native
      | missing ↦ elim (lookup status_messages status) [
        | entry found ↦ label_text found
        | inherited ↦ native
        | missing ↦ label_text default_message
      ]
    ]
    else label_text message
