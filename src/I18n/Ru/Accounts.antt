-- ===== src/I18n/Ru/Accounts.antt =====
-- The Russian texts of the layout, the home page, the accounts and the administrators
-- (admin/front/src/shared/i18n/locales/ru.ts).
use split_proxy.Base.{[], ◌∷◌}
use split_proxy.I18n.Tables.{Section}

unfoldable pub ru_common : Section
ru_common =
    ("add", "Добавить")
    ∷ ("save", "Сохранить")
    ∷ ("cancel", "Отмена")
    ∷ ("delete", "Удалить")
    ∷ ("edit", "Редактировать")
    ∷ ("create", "Создать")
    ∷ ("back", "Назад")
    ∷ ("login", "Логин")
    ∷ ("password", "Пароль")
    ∷ ("enterLogin", "Введите логин")
    ∷ ("enterPassword", "Введите пароль")
    ∷ ("actions", "Действия")
    ∷ ("enter", "Вход")
    ∷ ("createdAt", "Дата и время создания")
    ∷ ("updatedAt", "Дата и время обновления")
    ∷ ("minPasswordSize", "Минимум 8 символов")
    ∷ ("paginationTotal", "Всего {{total}}")
    ∷ []

unfoldable pub ru_admin_layout : Section
ru_admin_layout =
    ("main", "Главная")
    ∷ ("navigate", "Маршрутизация")
    ∷ ("admins", "Администраторы")
    ∷ ("openMenu", "Открыть меню")
    ∷ ("controlPanel", "Панель управления")
    ∷ ("exit", "Выйти")
    ∷ ("proxyAccounts", "Прокси аккаунты")
    ∷ ("groups", "Группы и воркеры")
    ∷ []

unfoldable pub ru_login_page : Section
ru_login_page = ("loginError", "Ошибка входа") ∷ ("submit", "Войти") ∷ []

unfoldable pub ru_home_page : Section
ru_home_page =
    ("title", "Главная")
    ∷ ("subtitle", "Общее состояние proxy-инфраструктуры")
    ∷ ("refresh", "Обновить")
    ∷ ("workers", "Воркеры")
    ∷ ("groups", "Группы")
    ∷ ("proxies", "Прокси аккаунты")
    ∷ ("admins", "Администраторы")
    ∷ ("domains", "Домены")
    ∷ ("cidrs", "CIDR")
    ∷ ("online", "онлайн")
    ∷ ("offline", "оффлайн")
    ∷ ("healthy", "Работает нормально")
    ∷ ("degraded", "Есть проблемы")
    ∷ ("workerGroups", "Группы воркеров")
    ∷ ("attention", "Требует внимания")
    ∷ ("routing", "Маршрутизация")
    ∷ ("defaultRoute", "Маршрут по умолчанию")
    ∷ ("domainRules", "Правила доменов")
    ∷ ("cidrRules", "Правила CIDR")
    ∷ ("noProblems", "Критических проблем не обнаружено")
    ∷ ("noGroups", "Группы отсутствуют")
    ∷ ("noWorkers", "Воркеры отсутствуют")
    ∷ ("viewAll", "Посмотреть все")
    ∷ ("quickActions", "Быстрые действия")
    ∷ ("addGroup", "Добавить группу")
    ∷ ("addProxy", "Добавить прокси аккаунт")
    ∷ ("addDomain", "Добавить домен")
    ∷ ("addCidr", "Добавить CIDR")
    ∷ ("defaultRouteUnavailable", "Не удалось определить маршрут по умолчанию")
    ∷ ("loadError", "Не удалось загрузить данные главной страницы")
    ∷ (
      "workersOffline",
      "{{count}} {{count, plural, one {воркер оффлайн} few {воркера оффлайн} many {воркеров оффлайн} other {воркеров оффлайн}}}",
    )
    ∷ ("emptyGroup", "В группе «{{name}}» нет онлайн воркеров")
    ∷ []

unfoldable pub ru_users_page : Section
ru_users_page =
    ("admins", "Администраторы")
    ∷ ("addUser", "Добавить пользователя")
    ∷ ("usersNotLoaded", "Не удалось загрузить пользователей")
    ∷ ("deletionError", "Ошибка удаления")
    ∷ ("userDeleted", "Пользователь удалён")
    ∷ ("isSuperuser", "Суперюзер?")
    ∷ ("cantDeleteSuperUser", "Вы не можете удалять суперпользователей")
    ∷ []

unfoldable pub ru_user_form_page : Section
ru_user_form_page =
    ("userNotLoaded", "Не удалось загрузить пользователя")
    ∷ ("userUpdated", "Пользователь обновлён")
    ∷ ("userCreated", "Пользователь создан")
    ∷ ("userEditing", "Редактирование пользователя")
    ∷ ("newUser", "Новый пользователь")
    ∷ ("backToUsers", "Назад к пользователям")
    ∷ ("loginPlaceholder", "Введите уникальный логин")
    ∷ []

unfoldable pub ru_auth : Section
ru_auth =
    ("h1", "Вход")
    ∷ ("login", "Логин")
    ∷ ("password", "Пароль")
    ∷ ("invalidCredentials", "Неверный email или пароль")
    ∷ []

unfoldable pub ru_delete_user_modal : Section
ru_delete_user_modal =
    ("deleteUserQ", "Удалить пользователя?")
    ∷ ("deleteDescription", "Пользователь {{name}} будет удалён без возможности восстановления.")
    ∷ []

unfoldable pub ru_proxies_page : Section
ru_proxies_page =
    ("h1", "Списк аккаунтов для прокси")
    ∷ ("addProxy", "Добавить аккаунт")
    ∷ ("proxiesNotLoaded", "Не удалось загрузить список аккаунтов к прокси")
    ∷ ("login", "Логин аккаунта")
    ∷ ("deletionError", "Ошибка удаления прокси")
    ∷ ("proxyDeleted", "Прокси аккаунт удален")
    ∷ ("selectedProxies", "Выбрано прокси: {{count}}")
    ∷ ("clearSelection", "Снять выделение")
    ∷ ("bulkDelete", "Удалить выбранные")
    ∷ ("bulkDeleteTitle", "Удалить выбранные прокси?")
    ∷ ("bulkDeleteConfirm", "Вы действительно хотите удалить {{count}} прокси?")
    ∷ ("bulkDeleted", "Удалено прокси: {{count}}")
    ∷ ("bulkDeletePartial", "Удалено: {{success}}, ошибок: {{failed}}")
    ∷ ("bulkDeleteFailed", "Не удалось удалить выбранные прокси")
    ∷ ("searchPlaceholder", "Поиск прокси")
    ∷ []

unfoldable pub ru_new_proxy_form_page : Section
ru_new_proxy_form_page =
    ("proxyNotLoaded", "Прокси не удалось загрузить")
    ∷ ("backToProxies", "Назад к списку аккаунтов")
    ∷ ("newProxy", "Добавление нового аккаунта")
    ∷ ("usernamePlaceholder", "Введите username для прокси")
    ∷ ("proxyEditing", "Редактирование аккаунта прокси")
    ∷ ("proxyUpdated", "Прокси аккаунт обновлен")
    ∷ ("proxyCreated", "Прокси аккаунт добавлен")
    ∷ []

unfoldable pub ru_delete_proxy_modal : Section
ru_delete_proxy_modal =
    ("deleteProxy", "Удалить логин/пароль для прокси?")
    ∷ (
      "deleteDescription",
      "Доступ для {{name}} к прокси будет удален без возможности восстановления.",
    )
    ∷ []
