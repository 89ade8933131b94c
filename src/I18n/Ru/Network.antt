-- ===== src/I18n/Ru/Network.antt =====
-- The Russian texts of the groups, the workers and the routing
-- (admin/front/src/shared/i18n/locales/ru.ts).
use split_proxy.Base.{[], ◌∷◌}
use split_proxy.I18n.Tables.{Section}

unfoldable pub ru_groups_page : Section
ru_groups_page =
    ("h1", "Список групп")
    ∷ ("addGroup", "Добавить группу")
    ∷ ("groupsNotLoaded", "Не удалось загрузить список групп")
    ∷ ("groupName", "Название группы")
    ∷ ("ip", "IP адрес")
    ∷ ("workers", "Воркеры")
    ∷ ("online", "Онлайн")
    ∷ ("offline", "Оффлайн")
    ∷ ("worgerGuid", "GUID воркера")
    ∷ ("selectGroup", "Выберите группу")
    ∷ ("workersNotLoaded", "Не удалось загрузить список воркеров")
    ∷ ("workerDeleted", "Воркер удалён")
    ∷ ("workerGroupUpdated", "Группа воркера изменена")
    ∷ ("workerGroupUpdateError", "Не удалось изменить группу воркера")
    ∷ ("deletionGroupError", "Ошибка удаления группы")
    ∷ ("deletionWorkerError", "Ошибка удаления воркера")
    ∷ ("groupDeleted", "Группа удалена")
    ∷ ("searchGuid", "Поиск по GUID")
    ∷ ("allGroups", "Все")
    ∷ ("noGroup", "Без группы")
    ∷ ("bulkSelectGroup", "Назначить группу")
    ∷ ("bulkUpdateGroup", "Изменить группу выбранным")
    ∷ ("bulkDelete", "Удалить выбранных")
    ∷ ("bulkDeleteTitle", "Массовое удаление")
    ∷ ("bulkDeleteConfirm", "Удалить выбранных работников: {{count}}?")
    ∷ ("bulkWorkersDeleted", "Удалено работников: {{count}}")
    ∷ ("bulkGroupUpdated", "Группа изменена у работников: {{count}}")
    ∷ ("bulkGroupPartial", "Группа изменена: {{succeeded}}, ошибок: {{failed}}")
    ∷ ("bulkDeletePartial", "Удалено: {{succeeded}}, ошибок: {{failed}}")
    ∷ ("workersTotal", "Всего работников: {{count}}")
    ∷ ("selectedWorkers", "Выбрано работников: {{count}}")
    ∷ ("clearSelection", "Снять выделение")
    ∷ []

unfoldable pub ru_new_group_form_page : Section
ru_new_group_form_page =
    ("groupNotLoaded", "Группу не удалось загрузить")
    ∷ ("backToGroups", "Назад к списку групп")
    ∷ ("newGroup", "Добавление новой группы")
    ∷ ("group_name", "Название группы")
    ∷ ("groupNamePlaceholder", "Введите название группы")
    ∷ ("groupEditing", "Редактирование группы")
    ∷ ("groupUpdated", "Группа обновлена")
    ∷ ("groupCreated", "Группа добавлена")
    ∷ []

unfoldable pub ru_delete_group_modal : Section
ru_delete_group_modal =
    ("deleteGroup", "Удалить группу?")
    ∷ ("deleteDescription", "Группа «{{name}}» будет удалена без возможности восстановления.")
    ∷ []

unfoldable pub ru_delete_worker_modal : Section
ru_delete_worker_modal =
    ("deleteWorker", "Удалить воркера?")
    ∷ ("deleteDescription", "Воркер «{{name}}» будет удалён без возможности восстановления.")
    ∷ []

unfoldable pub ru_routing_page : Section
ru_routing_page =
    ("h1", "Маршрутизация")
    ∷ ("domains", "Домены")
    ∷ ("cidrs", "CIDR")
    ∷ ("pattern", "Домен")
    ∷ ("subdomains", "Все поддомены")
    ∷ ("domainPlaceholder", "Введите домены")
    ∷ ("searchDomain", "Поиск по доменам")
    ∷ ("searchCidr", "Поиск по CIDR")
    ∷ ("includeSubdomains", "Включая поддомены")
    ∷ ("selectGroup", "Выберите группу")
    ∷ ("invalidDomain", "Введите корректный домен")
    ∷ ("invalidCidr", "Введите корректную CIDR-сеть")
    ∷ ("domainAlreadyExists", "Домен уже существует: {{pattern}}")
    ∷ ("cidrAlreadyExists", "CIDR уже существует: {{cidr}}")
    ∷ ("domainAdded", "Домен успешно добавлен")
    ∷ ("domainAddError", "Не удалось добавить домен")
    ∷ ("cidrAdded", "CIDR успешно добавлен")
    ∷ ("cidrAddError", "Не удалось добавить CIDR")
    ∷ ("domainDeleted", "Домен успешно удалён")
    ∷ ("domainDeleteError", "Не удалось удалить домен")
    ∷ ("cidrDeleted", "CIDR успешно удалён")
    ∷ ("cidrDeleteError", "Не удалось удалить CIDR")
    ∷ ("domainGroupUpdated", "Группа домена успешно изменена")
    ∷ ("domainGroupUpdateError", "Не удалось изменить группу домена")
    ∷ ("cidrGroupUpdated", "Группа CIDR успешно изменена")
    ∷ ("cidrGroupUpdateError", "Не удалось изменить группу CIDR")
    ∷ ("domainsNotLoaded", "Не удалось загрузить список доменов")
    ∷ ("cidrsNotLoaded", "Не удалось загрузить список CIDR")
    ∷ ("groupsNotLoaded", "Не удалось загрузить список групп")
    ∷ ("addDomain", "Добавить домен")
    ∷ ("addCidrs", "Добавить cidrs")
    ∷ ("defaultRoute", "Настройка")
    ∷ ("descriptionRoute", "Выберите группу через которую будет идти траффик по умолчанию:")
    ∷ ("defaultRouteUpdated", "Маршрут по умолчанию обновлен")
    ∷ ("allGroups", "Все группы")
    ∷ ("filterByGroup", "Фильтр по группе")
    ∷ ("bulkSelectGroup", "Выберите группу")
    ∷ ("bulkUpdateGroup", "Изменить группу")
    ∷ ("bulkDelete", "Удалить выбранные")
    ∷ ("bulkDeleteTitle", "Удалить выбранные маршруты?")
    ∷ (
      "bulkDeleteConfirm",
      "Вы уверены, что хотите удалить {{count}} выбранных маршрутов? Это действие нельзя отменить.",
    )
    ∷ ("bulkDeleted", "Удалено маршрутов: {{count}}")
    ∷ ("bulkGroupUpdated", "Группа обновлена у маршрутов: {{count}}")
    ∷ ("bulkGroupPartial", "Группа обновлена у {{succeeded}} маршрутов; ошибок: {{failed}}.")
    ∷ ("bulkGroupFailed", "Не удалось изменить группу выбранных маршрутов.")
    ∷ ("bulkDeletePartial", "Удалено маршрутов: {{succeeded}}; ошибок: {{failed}}.")
    ∷ ("bulkDeleteFailed", "Не удалось удалить выбранные маршруты.")
    ∷ ("selectedRoutes", "Выбрано: {{count}}")
    ∷ ("clearSelection", "Снять выделение")
    ∷ ("clearAllCidrs", "Очистить все CIDR")
    ∷ ("clearAllCidrsTitle", "Очистить все CIDR?")
    ∷ ("clearAllCidrsConfirm", "Все CIDR-маршруты будут удалены. Это действие нельзя отменить.")
    ∷ ("allCidrsCleared", "Все CIDR-маршруты удалены.")
    ∷ ("clearAllCidrsError", "Не удалось очистить CIDR-маршруты.")
    ∷ []
