-- ===== src/Api/Endpoints.antt =====
-- The request of every API call, each by the function of its file; `getConfig` is configApi.ts.
use split_proxy.Base.{[]}
use split_proxy.Api.Calls.{
  ApiCall, get_list_domains, get_list_cidr, add_domains, add_cidrs, update_domain, update_cidr,
  delete_domain, delete_cidr, clear_all_cidrs, get_default_route, update_default_route, get_proxy,
  get_proxies, create_proxy, update_proxy, remove_proxy, get_workers, get_worker, update_worker,
  remove_worker, get_group, get_groups, create_group, update_group, remove_group, get_user,
  get_users, create_user, update_user, remove_user, get_config,
}
use split_proxy.Api.Client.{get}
use split_proxy.Api.Building.{bare_call, at_path, Endpoint}
use split_proxy.Api.RoutingApi
use split_proxy.Api.ProxyApi
use split_proxy.Api.WorkerApi
use split_proxy.Api.GroupApi
use split_proxy.Api.UserApi

unfoldable pub endpoint : ApiCall → Endpoint
endpoint (get_list_domains p) = RoutingApi.get_list_domains p
endpoint (get_list_cidr p) = RoutingApi.get_list_cidr p
endpoint (add_domains patterns g) = RoutingApi.add_domains patterns g
endpoint (add_cidrs cidrs g) = RoutingApi.add_cidrs cidrs g
endpoint (update_domain pattern g) = RoutingApi.update_domain pattern g
endpoint (update_cidr cidr g) = RoutingApi.update_cidr cidr g
endpoint (delete_domain pattern) = RoutingApi.delete_domain pattern
endpoint (delete_cidr cidr) = RoutingApi.delete_cidr cidr
endpoint clear_all_cidrs = RoutingApi.clear_all_cidrs
endpoint get_default_route = RoutingApi.get_default_route
endpoint (update_default_route g) = RoutingApi.update_default_route g
endpoint (get_proxy id) = ProxyApi.get_proxy id
endpoint (get_proxies p) = ProxyApi.get_proxies p
endpoint (create_proxy i) = ProxyApi.create_proxy i
endpoint (update_proxy id i) = ProxyApi.update_proxy id i
endpoint (remove_proxy id) = ProxyApi.remove_proxy id
endpoint (get_workers p) = WorkerApi.get_workers p
endpoint (get_worker guid) = WorkerApi.get_worker guid
endpoint (update_worker guid g) = WorkerApi.update_worker guid g
endpoint (remove_worker guid) = WorkerApi.remove_worker guid
endpoint (get_group id) = GroupApi.get_group id
endpoint get_groups = GroupApi.get_groups
endpoint (create_group i) = GroupApi.create_group i
endpoint (update_group id i) = GroupApi.update_group id i
endpoint (remove_group id) = GroupApi.remove_group id
endpoint (get_user id) = UserApi.get_user id
endpoint get_users = UserApi.get_users
endpoint (create_user i) = UserApi.create_user i
endpoint (update_user id i) = UserApi.update_user id i
endpoint (remove_user id) = UserApi.remove_user id
endpoint get_config = at_path "/config" [] (bare_call get)
